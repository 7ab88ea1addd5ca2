-- ===== src/Literals/Tests.antt =====
-- A channel of 70 needles, and the steps of a technology.
use domain_status.Common.{
  ◌≡◌, refl, true, false, none, some, List, [], ◌∷◌, arith, codes, ◌==◌, any,
}
use domain_status.Literals.Hits.{Interner, contains_hit, scan_channel, intern}
use domain_status.Literals.Channels.{IsInterned, contains_hit-scan_channel}
use domain_status.Literals.Steps.{BodyStep, any_text, literal, Found, apply_steps}
use domain_status.Literals.StepsLaws.{Summary, results, apply_steps-Summary}

-- Needle 65 lies in the second word.
contains_hit-scan_channel_example :
    contains_hit (scan_channel 70 (3 ∷ 65 ∷ [])) 65 ≡ any (λ id. id == 65) (3 ∷ 65 ∷ [])
contains_hit-scan_channel_example =
    contains_hit-scan_channel 70 (3 ∷ 65 ∷ []) 65 (omega arith, (omega arith, tt))

two_words :
    (contains_hit (scan_channel 70 (3 ∷ 65 ∷ [])) 65 ≡ true)
    × (contains_hit (scan_channel 70 (3 ∷ 65 ∷ [])) 1 ≡ false)
unfolding scan_channel contains_hit
two_words = (refl, refl)

abbrev no_needles : Interner
no_needles = record { to_id = []; needles = [] }

abbrev one_needle : Interner
one_needle = record { to_id = (codes "jquery", 0) ∷ []; needles = codes "jquery" ∷ [] }

interned_run : intern no_needles (codes "jquery") ≡ (one_needle, some 0)
unfolding intern
interned_run = refl

no_needles-IsInterned : IsInterned no_needles
no_needles-IsInterned t id e = absurd (ground arith)

-- A needle that does not occur, one that does, and a template with a version.
abbrev steps : List BodyStep
steps = literal 1 ∷ literal 65 ∷ any_text (some (codes " ga4 ")) ∷ []

abbrev unknown : Found
unknown = record { matched = false; version = none }

steps_run :
    apply_steps steps (scan_channel 70 (3 ∷ 65 ∷ [])) [] unknown
    ≡ (record { matched = true; version = some (codes "ga4") }, true)
unfolding apply_steps scan_channel contains_hit
steps_run = refl

apply_steps-Summary_example :
    Summary
      (results steps (scan_channel 70 (3 ∷ 65 ∷ [])) [])
      unknown
      (apply_steps steps (scan_channel 70 (3 ∷ 65 ∷ [])) [] unknown)
apply_steps-Summary_example = apply_steps-Summary steps (scan_channel 70 (3 ∷ 65 ∷ [])) [] unknown

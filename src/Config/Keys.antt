-- ===== src/Config/Keys.antt =====
-- Which arguments the user set.
use domain_status.Common.{
  has-filter, has-append, ◌≡◌, ◌∙◌, inl, inr, refl, ap, Bool, true, false, ◌||◌, List, [], ◌∷◌,
  text_eq, text_eq_iff, Bool-cases, filter, Text, codes, arith, if◌then◌else◌, has,
}
use domain_status.Config.Command.{scan_config_arg_ids, get_explicit_config_keys}

abbrev override_key : (Text → Bool) → List Text
override_key set_by_user =
    if set_by_user (codes "verbose") || set_by_user (codes "quiet")
    then codes "log_level_filter_override" ∷ []
    else []

other_override :
    (b : Bool) (key : Text)
    → text_eq key (codes "log_level_filter_override") ≡ false
    → has key (if b then codes "log_level_filter_override" ∷ [] else []) ≡ false
other_override true key h = rw h
other_override false key h = refl

override_is_no_id :
    (set_by_user : Text → Bool) (key : Text)
    → has key scan_config_arg_ids ≡ true
    → has key (override_key set_by_user) ≡ false
override_is_no_id set_by_user key h =
    elim (Bool-cases (text_eq key (codes "log_level_filter_override"))) [
      | inl same ↦
          let no_id : has (codes "log_level_filter_override") scan_config_arg_ids ≡ false = refl in
          let is_id =
            ap (λ (t : Text). has t scan_config_arg_ids)
              ((text_eq_iff key (codes "log_level_filter_override")).0 same) in
          cc
      | inr other ↦
          other_override (set_by_user (codes "verbose") || set_by_user (codes "quiet")) key other
    ]

-- The keys that `get_explicit_config_keys` names are those of the arguments that the user set.
pub has-get_explicit_config_keys :
    (set_by_user : Text → Bool) (key : Text)
    → has key scan_config_arg_ids ≡ true
    → has key (get_explicit_config_keys set_by_user) ≡ set_by_user key
unfolding get_explicit_config_keys
has-get_explicit_config_keys set_by_user key h =
    has-append key (filter set_by_user scan_config_arg_ids) (override_key set_by_user)
    ∙ rw (has-filter set_by_user key scan_config_arg_ids)
        (rw h (ground (arith, override_is_no_id set_by_user key h)))

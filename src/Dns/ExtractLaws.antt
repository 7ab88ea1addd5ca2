-- ===== src/Dns/ExtractLaws.antt =====
-- The kinds of policies among the TXT records.
use domain_status.Common.{
  All, ap, ◌++◌, trim, none, some, ◌≡◌, refl, sym, ◌∙◌, ◌⊎◌, inl, inr, Bool, true, false, ◌||◌,
  Option, List, [], ◌∷◌, arith, Text, codes, text_eq, text_eq_iff, starts_with, to_ascii_lowercase,
  if◌then◌else◌, Bool-cases,
}
use mathlib.Core.Path.{subst}
use domain_status.Dns.Extract.{
  starts_with_tag, extract_first, is_spf_txt, is_dmarc_txt, is_mta_sts_txt, is_tls_rpt_txt,
  is_bimi_txt, extract_spf_record, extract_dmarc_record, extract_mta_sts_record,
  extract_tls_rpt_record, extract_bimi_record, is_verification, detect_txt_type,
}
use domain_status.Dns.TagLaws.{starts_with_tag_exclusive}

-- The kinds of policies, each with the type that is stored for it and its extractor.
pub data Policy : Type 0 where
  spf dmarc mta_sts tls_rpt bimi : Policy

abbrev pub txt_type : Policy → Text
txt_type Policy.spf = codes "SPF"
txt_type Policy.dmarc = codes "DMARC"
txt_type Policy.mta_sts = codes "MTA-STS"
txt_type Policy.tls_rpt = codes "TLS-RPT"
txt_type Policy.bimi = codes "BIMI"

abbrev tag : Policy → Text
tag Policy.spf = codes "v=spf1"
tag Policy.dmarc = codes "v=dmarc1"
tag Policy.mta_sts = codes "v=stsv1"
tag Policy.tls_rpt = codes "v=tlsrptv1"
tag Policy.bimi = codes "v=bimi1"

abbrev pub extract : Policy → List Text → Option Text
extract Policy.spf = extract_spf_record
extract Policy.dmarc = extract_dmarc_record
extract Policy.mta_sts = extract_mta_sts_record
extract Policy.tls_rpt = extract_tls_rpt_record
extract Policy.bimi = extract_bimi_record

abbrev test_of : Policy → Text → Bool
test_of p txt = starts_with_tag txt (tag p)

abbrev comparable : Text → Text → Bool
comparable a b =
    starts_with (to_ascii_lowercase a) (to_ascii_lowercase b)
    || starts_with (to_ascii_lowercase b) (to_ascii_lowercase a)

Policy-cases :
    (q p : Policy)
    → (q ≡ p) ⊎ ((text_eq (txt_type q) (txt_type p) ≡ false) × (comparable (tag q) (tag p) ≡ false))
Policy-cases Policy.spf Policy.spf = inl refl
Policy-cases Policy.dmarc Policy.dmarc = inl refl
Policy-cases Policy.mta_sts Policy.mta_sts = inl refl
Policy-cases Policy.tls_rpt Policy.tls_rpt = inl refl
Policy-cases Policy.bimi Policy.bimi = inl refl
Policy-cases _ _ = inr (refl, refl)

text_eq_self : (s : Text) → text_eq s s ≡ true
text_eq_self s = (text_eq_iff s s).1 refl

-- Where the test of one policy holds, that of each policy says whether it is the same one.
text_eq-test_of :
    (q p : Policy) (txt : Text)
    → test_of q txt ≡ true
    → text_eq (txt_type q) (txt_type p) ≡ test_of p txt
text_eq-test_of q p txt h = elim (Policy-cases q p) [
  | inl e ↦ rw (sym e) (text_eq_self (txt_type q) ∙ sym h)
  | inr (t, c) ↦ t ∙ sym (starts_with_tag_exclusive txt (tag q) (tag p) c h)
]

abbrev other_type : Bool → Text
other_type v = if v then codes "VERIFICATION" else codes "OTHER"

other_type-policy : (v : Bool) (p : Policy) → text_eq (other_type v) (txt_type p) ≡ false
other_type-policy true Policy.spf = refl
other_type-policy true Policy.dmarc = refl
other_type-policy true Policy.mta_sts = refl
other_type-policy true Policy.tls_rpt = refl
other_type-policy true Policy.bimi = refl
other_type-policy false Policy.spf = refl
other_type-policy false Policy.dmarc = refl
other_type-policy false Policy.mta_sts = refl
other_type-policy false Policy.tls_rpt = refl
other_type-policy false Policy.bimi = refl

module _ (test : Policy → Bool) where
  abbrev first_type : Bool → Text
  first_type v =
      if test Policy.spf
      then txt_type Policy.spf
      else if test Policy.dmarc
      then txt_type Policy.dmarc
      else if test Policy.mta_sts
      then txt_type Policy.mta_sts
      else if test Policy.tls_rpt
      then txt_type Policy.tls_rpt
      else if test Policy.bimi
      then txt_type Policy.bimi
      else other_type v

  none_holds :
      test Policy.spf ≡ false
      → test Policy.dmarc ≡ false
      → test Policy.mta_sts ≡ false
      → test Policy.tls_rpt ≡ false
      → test Policy.bimi ≡ false
      → (p : Policy) → test p ≡ false
  none_holds a b c d e Policy.spf = a
  none_holds a b c d e Policy.dmarc = b
  none_holds a b c d e Policy.mta_sts = c
  none_holds a b c d e Policy.tls_rpt = d
  none_holds a b c d e Policy.bimi = e

  -- Where no two tests hold, their order does not matter.
  first_type-test :
      (v : Bool)
      → ((q p : Policy) → test q ≡ true → text_eq (txt_type q) (txt_type p) ≡ test p)
      → (p : Policy) → text_eq (first_type v) (txt_type p) ≡ test p
  first_type-test v apart p = elim (Bool-cases (test Policy.spf)) [
    | inl a ↦ rw (first_type, a, if◌then◌else◌) (apart Policy.spf p a)
    | inr a ↦ elim (Bool-cases (test Policy.dmarc)) [
      | inl b ↦ rw (first_type, a, b, if◌then◌else◌) (apart Policy.dmarc p b)
      | inr b ↦ elim (Bool-cases (test Policy.mta_sts)) [
        | inl c ↦ rw (first_type, a, b, c, if◌then◌else◌) (apart Policy.mta_sts p c)
        | inr c ↦ elim (Bool-cases (test Policy.tls_rpt)) [
          | inl d ↦ rw (first_type, a, b, c, d, if◌then◌else◌) (apart Policy.tls_rpt p d)
          | inr d ↦ elim (Bool-cases (test Policy.bimi)) [
            | inl e ↦ rw (first_type, a, b, c, d, e, if◌then◌else◌) (apart Policy.bimi p e)
            | inr e ↦
                rw (first_type, a, b, c, d, e, if◌then◌else◌)
                  (other_type-policy v p ∙ sym (none_holds a b c d e p))
          ]
        ]
      ]
    ]
  ]

extract_first-ext :
    (f g : Text → Bool)
    → ((txt : Text) → f txt ≡ g txt)
    → (txt_records : List Text) → extract_first f txt_records ≡ extract_first g txt_records
unfolding extract_first
extract_first-ext f g h [] = refl
extract_first-ext f g h (txt ∷ txt_records) =
    ground (arith, extract_first-ext f g h txt_records, h txt)

extract-test_of :
    (p : Policy) (txt_records : List Text)
    → extract p txt_records ≡ extract_first (test_of p) txt_records
unfolding extract_spf_record extract_dmarc_record extract_mta_sts_record extract_tls_rpt_record
    extract_bimi_record starts_with_tag is_spf_txt is_dmarc_txt is_mta_sts_txt is_tls_rpt_txt
    is_bimi_txt
extract-test_of Policy.spf txt_records = refl
extract-test_of Policy.dmarc txt_records = refl
extract-test_of Policy.mta_sts txt_records = refl
extract-test_of Policy.tls_rpt txt_records = refl
extract-test_of Policy.bimi txt_records = refl

-- What is found by a test: none if no record passes, or the trimmed first one that does.
abbrev pub IsFirst : (Text → Bool) → List Text → Option Text → Type 0
IsFirst test txt_records none = All (λ t. test t ≡ false) txt_records
IsFirst test txt_records (some found) =
    (before : List Text) × (txt : Text) × (after : List Text) × (txt_records
      ≡ before ++ txt ∷ after)
    × All (λ t. test t ≡ false) before
    × (test txt ≡ true)
    × (found ≡ trim txt)

IsFirst-cons :
    (test : Text → Bool) (txt : Text) (txt_records : List Text) (o : Option Text)
    → test txt ≡ false
    → IsFirst test txt_records o
    → IsFirst test (txt ∷ txt_records) o
IsFirst-cons test txt txt_records none h k = (h, k)
IsFirst-cons test txt txt_records (some found) h (before, first, after, e, a, t, f) =
    (txt ∷ before, first, after, ap (λ l. txt ∷ l) e, (h, a), t, f)

extract_first-IsFirst :
    (test : Text → Bool) (txt_records : List Text)
    → IsFirst test txt_records (extract_first test txt_records)
unfolding extract_first
extract_first-IsFirst test [] = tt
extract_first-IsFirst test (txt ∷ txt_records) = elim (Bool-cases (test txt)) [
  | inl h ↦ rw (h, if◌then◌else◌) ([], txt, txt_records, refl, tt, h, refl)
  | inr h ↦
      rw (h, if◌then◌else◌)
        (IsFirst-cons test txt txt_records (extract_first test txt_records) h
          (extract_first-IsFirst test txt_records))
]

module _ (to_lowercase : Text → Text) where
  detect_txt_type-test_of :
      (p : Policy) (txt : Text)
      → text_eq (detect_txt_type to_lowercase txt) (txt_type p) ≡ test_of p txt
  unfolding detect_txt_type
  detect_txt_type-test_of p txt =
      first_type-test (λ q. test_of q txt) (is_verification (to_lowercase txt))
        (λ q r. text_eq-test_of q r txt) p

  -- The extractor of each kind of policy returns, trimmed, the first record whose stored type is that
  -- of the policy: the records in front of it have other types; and it returns none exactly if all
  -- records have other types, whatever the texts are.
  pub extract-detect_txt_type :
      (p : Policy) (txt_records : List Text)
      → IsFirst
          (λ txt. text_eq (detect_txt_type to_lowercase txt) (txt_type p))
          txt_records
          (extract p txt_records)
  extract-detect_txt_type p txt_records =
      subst (IsFirst _ txt_records)
        (sym (
          extract-test_of p txt_records
          ∙ extract_first-ext (test_of p) _ (λ txt. sym (detect_txt_type-test_of p txt))
              txt_records))
        (extract_first-IsFirst (λ txt. text_eq (detect_txt_type to_lowercase txt) (txt_type p))
          txt_records)

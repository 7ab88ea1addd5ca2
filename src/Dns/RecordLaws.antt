-- ===== src/Dns/RecordLaws.antt =====
-- The TXT records of a domain: their number and their size.
use domain_status.Common.{
  ℕ, zero, suc, ◌≤◌, ◌≡◌, refl, sym, ap, ◌∙◌, inl, inr, Bool, true, false, ◌||◌, some, List, [],
  ◌∷◌, map, arith, Text, ok, err, utf8_len, leb, if◌then◌else◌, Bool-cases, Result-cases, Result,
  length, take, All, filter,
}
use domain_status.Sanitize.{truncate_at_char_boundary, truncate_utf8}
use domain_status.Sanitize.Laws.{greedy, truncate_utf8-greedy}
use domain_status.Dns.Records.{
  RecordType, RData, max_txt_record_size, max_txt_record_count, is_storable_txt, bound_txt_record,
  take_storable_txt, filter_map, txt_of, ok_records, map_lookup_error, lookup_txt_records,
}

-- The records in order, each cut to whole characters that fit, without those that are blank, and
-- of these the first ones.
abbrev pub first_storable : ℕ → List Text → List Text
first_storable n records =
    take n (filter is_storable_txt (map (greedy max_txt_record_size) records))

abbrev pub IsStored : Text → Type 0
IsStored t = (is_storable_txt t ≡ true) × (utf8_len t ≤ max_txt_record_size)

truncate_utf8_fits : (n : ℕ) (s : Text) → leb (utf8_len s) n ≡ true → truncate_utf8 s n ≡ some s
unfolding truncate_utf8 truncate_at_char_boundary
truncate_utf8_fits n s b = rw (b, if◌then◌else◌) refl

bounded-greedy :
    (n : ℕ) (s : Text)
    → (if leb (utf8_len s) n then some s else truncate_utf8 s n) ≡ some (greedy n s)
bounded-greedy n s = elim (Bool-cases (leb (utf8_len s) n)) [
  | inl b ↦ rw (b, if◌then◌else◌) (sym (truncate_utf8_fits n s b) ∙ (truncate_utf8-greedy s n).0)
  | inr b ↦ rw (b, if◌then◌else◌) ((truncate_utf8-greedy s n).0)
]

bound_txt_record-greedy : (s : Text) → bound_txt_record s ≡ some (greedy max_txt_record_size s)
unfolding bound_txt_record truncate_utf8
bound_txt_record-greedy s = bounded-greedy max_txt_record_size s

take_storable_txt-first_storable :
    (n : ℕ) (records : List Text) → take_storable_txt n records ≡ some (first_storable n records)
unfolding take_storable_txt
take_storable_txt-first_storable zero records = refl
take_storable_txt-first_storable (suc n) [] = refl
take_storable_txt-first_storable (suc n) (s ∷ records) =
    rw (take_storable_txt, bound_txt_record-greedy s)
      (elim (Bool-cases (is_storable_txt (greedy max_txt_record_size s))) [
        | inl b ↦ rw (b, if◌then◌else◌) (rw (take_storable_txt-first_storable n records) refl)
        | inr b ↦ rw (b, if◌then◌else◌) (rw (take_storable_txt-first_storable (suc n) records) refl)
      ])

first_storable-IsStored :
    (n : ℕ) (records : List Text)
    → (length (first_storable n records) ≤ n) × All IsStored (first_storable n records)
first_storable-IsStored zero records = (omega arith, tt)
first_storable-IsStored (suc n) [] = (omega arith, tt)
first_storable-IsStored (suc n) (s ∷ records) =
    elim (Bool-cases (is_storable_txt (greedy max_txt_record_size s))) [
      | inl b ↦
          let (l, a) = first_storable-IsStored n records in
          rw (b, if◌then◌else◌)
            (omega (arith, l), ((b, (truncate_utf8-greedy s max_txt_record_size).1), a))
      | inr b ↦ rw (b, if◌then◌else◌) (first_storable-IsStored (suc n) records)
    ]

module _ {E : Type 0} (is_no_records_found is_nx_domain : E → Bool) where
  -- What the answer of a resolver says of the TXT records.
  abbrev pub txt_result : Result (List RData) E → Result (List Text) E
  txt_result (ok answers) = ok (first_storable max_txt_record_count (filter_map txt_of answers))
  txt_result (err e) = if is_no_records_found e || is_nx_domain e then ok [] else err e

  abbrev pub IsBounded : Result (List Text) E → Type 0
  IsBounded (ok records) = (length records ≤ max_txt_record_count) × All IsStored records
  IsBounded (err e) = (is_no_records_found e || is_nx_domain e) ≡ false

  txt_result-IsBounded : (r : Result (List RData) E) → IsBounded (txt_result r)
  txt_result-IsBounded (ok answers) =
      first_storable-IsStored max_txt_record_count (filter_map txt_of answers)
  txt_result-IsBounded (err e) = elim (Bool-cases (is_no_records_found e || is_nx_domain e)) [
    | inl b ↦ rw (b, if◌then◌else◌) (omega arith, tt)
    | inr b ↦ rw (b, if◌then◌else◌) b
  ]

  -- lookup_txt_records never panics. It returns the TXT texts of the answers in their order, each
  -- cut to the longest prefix of whole characters within 1024 bytes, without the blank ones, and of
  -- these the first 20; so they are at most 20, none blank and none longer than 1024 bytes. It
  -- returns no record where the resolver finds none, and any other error as it is.
  pub lookup_txt_records-IsBounded :
      (lookup : Text → RecordType → Result (List RData) E) (domain : Text)
      → (lookup_txt_records is_no_records_found is_nx_domain lookup domain
          ≡ some (txt_result (lookup domain RecordType.txt)))
        × IsBounded (txt_result (lookup domain RecordType.txt))
  unfolding lookup_txt_records map_lookup_error
  lookup_txt_records-IsBounded lookup domain = (
    elim (Result-cases (lookup domain RecordType.txt)) [
      | inl (answers, e) ↦ rw e (
          ap (ok_records is_no_records_found is_nx_domain)
            (take_storable_txt-first_storable max_txt_record_count (filter_map txt_of answers)))
      | inr (x, e) ↦ rw e refl
    ],
    txt_result-IsBounded (lookup domain RecordType.txt),
  )

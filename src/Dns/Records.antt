-- ===== src/Dns/Records.antt =====
-- src/dns/records.rs: the queries for records. The resolver is a parameter, as are the two tests of
-- its errors; an RData has the variants that the code reads, with names and texts as they print.
use domain_status.Common.{
  ℕ, zero, suc, Bool, not, ◌||◌, Option, none, some, List, [], ◌∷◌, ◌++◌, Text, trim, utf8_len,
  is_empty, leb, Result, ok, err, if◌then◌else◌,
}
use domain_status.Sanitize.{truncate_utf8}

pub data RecordType : Type 0 where
  ns txt mx cname aaaa caa : RecordType

pub data RData : Type 0 where
  ns : (name : Text) → RData
  txt : (txt_data : List Text) → RData
  mx : (preference : ℕ) (exchange : Text) → RData
  cname : (name : Text) → RData
  aaaa : (addr : Text) → RData
  caa : (issuer_critical : Bool) (tag value : Text) → RData
  other : RData

abbrev pub max_txt_record_size : ℕ
max_txt_record_size = 1024

abbrev pub max_txt_record_count : ℕ
max_txt_record_count = 20

unfoldable pub is_storable_txt : Text → Bool
is_storable_txt s = not (is_empty (trim s))

unfoldable pub bound_txt_record : Text → Option Text
unfolding truncate_utf8
bound_txt_record concatenated =
    if leb (utf8_len concatenated) max_txt_record_size
    then some concatenated
    else truncate_utf8 concatenated max_txt_record_size

abbrev pub concat : List Text → Text
concat [] = []
concat (bytes ∷ txt_data) = bytes ++ concat txt_data

abbrev pub cons_some {ℓ} : {A : Type ℓ} → Option A → List A → List A
cons_some none xs = xs
cons_some (some x) xs = x ∷ xs

-- `filter_map(..).collect()`.
unfoldable pub filter_map {ℓ κ} : {A : Type ℓ} {B : Type κ} → (A → Option B) → List A → List B
filter_map f [] = []
filter_map f (x ∷ xs) = cons_some (f x) (filter_map f xs)

abbrev pub txt_of : RData → Option Text
txt_of (RData.txt txt_data) = some (concat txt_data)
txt_of _ = none

abbrev keep_txt : Bool → Text → Option (List Text) → Option (List Text)
keep_txt storable r none = none
keep_txt storable r (some rest) = some (if storable then r ∷ rest else rest)

-- The iterator, which computes a record when `take` asks for it, and no more behind the last one
-- that is taken.
unfoldable pub take_storable_txt : ℕ → List Text → Option (List Text)
unfolding bound_txt_record is_storable_txt
take_storable_txt zero records = some []
take_storable_txt (suc n) [] = some []
take_storable_txt (suc n) (concatenated ∷ records) = elim (bound_txt_record concatenated) [
  | none ↦ none
  | some r ↦
      let storable = is_storable_txt r in
      keep_txt storable r (take_storable_txt (if storable then n else suc n) records)
]

abbrev ns_of : RData → Option Text
ns_of (RData.ns name) = some name
ns_of _ = none

abbrev mx_of : RData → Option (ℕ × Text)
mx_of (RData.mx preference exchange) = some (preference, exchange)
mx_of _ = none

abbrev cname_of : RData → Option Text
cname_of (RData.cname name) = some name
cname_of _ = none

abbrev aaaa_of : RData → Option Text
aaaa_of (RData.aaaa addr) = some addr
aaaa_of _ = none

abbrev caa_of : RData → Option (ℕ × Text × Text)
caa_of (RData.caa issuer_critical tag value) = some (if issuer_critical then 128 else 0, tag, value)
caa_of _ = none

-- The stable `sort_by_key` of the priorities.
unfoldable pub insert_mx : ℕ × Text → List (ℕ × Text) → List (ℕ × Text)
insert_mx r [] = r ∷ []
insert_mx r (s ∷ rs) = let rest = insert_mx r rs in if leb r.0 s.0 then r ∷ (s ∷ rs) else s ∷ rest

unfoldable pub sort_mx : List (ℕ × Text) → List (ℕ × Text)
unfolding insert_mx
sort_mx [] = []
sort_mx (r ∷ rs) = insert_mx r (sort_mx rs)

abbrev sorted_mx {ℓ} : {E : Type ℓ} → Result (List (ℕ × Text)) E → Result (List (ℕ × Text)) E
sorted_mx (err e) = err e
sorted_mx (ok records) = ok (sort_mx records)

module _ {E : Type 0} (is_no_records_found is_nx_domain : E → Bool) where
  unfoldable pub map_lookup_error {ℓ} : {T : Type ℓ} → E → Result (List T) E
  map_lookup_error e = if is_no_records_found e || is_nx_domain e then ok [] else err e

  abbrev answers_mapped :
      {T : Type 0} → (RData → Option T) → Result (List RData) E → Result (List T) E
  answers_mapped f (ok answers) = ok (filter_map f answers)
  answers_mapped f (err e) = map_lookup_error e

  abbrev pub ok_records : Option (List Text) → Option (Result (List Text) E)
  ok_records none = none
  ok_records (some records) = some (ok records)

  abbrev txt_answers : Result (List RData) E → Option (Result (List Text) E)
  txt_answers (err e) = some (map_lookup_error e)
  txt_answers (ok answers) =
      ok_records (take_storable_txt max_txt_record_count (filter_map txt_of answers))

  module _ (lookup : Text → RecordType → Result (List RData) E) (domain : Text) where
    unfoldable pub lookup_mapped :
        {T : Type 0} → RecordType → (RData → Option T) → Result (List T) E
    unfolding filter_map map_lookup_error
    lookup_mapped record_type f = answers_mapped f (lookup domain record_type)

    unfoldable pub lookup_ns_records : Result (List Text) E
    unfolding lookup_mapped
    lookup_ns_records = lookup_mapped RecordType.ns ns_of

    -- `none` is a panic.
    unfoldable pub lookup_txt_records : Option (Result (List Text) E)
    unfolding filter_map take_storable_txt map_lookup_error
    lookup_txt_records = txt_answers (lookup domain RecordType.txt)

    unfoldable pub lookup_mx_records : Result (List (ℕ × Text)) E
    unfolding lookup_mapped sort_mx
    lookup_mx_records = sorted_mx (lookup_mapped RecordType.mx mx_of)

    unfoldable pub lookup_cname_records : Result (List Text) E
    unfolding lookup_mapped
    lookup_cname_records = lookup_mapped RecordType.cname cname_of

    unfoldable pub lookup_aaaa_records : Result (List Text) E
    unfolding lookup_mapped
    lookup_aaaa_records = lookup_mapped RecordType.aaaa aaaa_of

    unfoldable pub lookup_caa_records : Result (List (ℕ × Text × Text)) E
    unfolding lookup_mapped
    lookup_caa_records = lookup_mapped RecordType.caa caa_of

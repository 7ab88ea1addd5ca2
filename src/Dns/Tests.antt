-- ===== src/Dns/Tests.antt =====
-- The answers of a small resolver.
use domain_status.Common.{
  ◌≡◌, refl, Bool, true, false, some, List, [], ◌∷◌, Text, codes, text_eq, ok, err, Result,
}
use domain_status.Dns.Extract.{extract_spf_record, is_spf_txt, detect_txt_type}
use domain_status.Dns.ExtractLaws.{Policy, txt_type, extract, IsFirst, extract-detect_txt_type}
use domain_status.Dns.Records.{
  RecordType, RData, lookup_txt_records, lookup_mx_records, lookup_caa_records,
}
use domain_status.Dns.RecordLaws.{txt_result, IsBounded, lookup_txt_records-IsBounded}

-- The error is whether the name does not exist.
abbrev lookup : Text → RecordType → Result (List RData) Bool
lookup domain RecordType.txt = ok (
    RData.txt (codes " v=SP" ∷ codes "F1 -all" ∷ [])
    ∷ RData.txt (codes "  " ∷ [])
    ∷ RData.cname (codes "a.")
    ∷ RData.txt (codes "MS-verify" ∷ [])
    ∷ [])
lookup domain RecordType.mx =
    ok (RData.mx 20 (codes "b.") ∷ RData.mx 10 (codes "c.") ∷ RData.mx 20 (codes "a.") ∷ [])
lookup domain RecordType.ns = err true
lookup domain _ = err false

abbrev texts : List Text
texts = codes " v=SPF1 -all" ∷ codes "MS-verify" ∷ []

txt_run : lookup_txt_records (λ e. false) (λ e. e) lookup (codes "example.org") ≡ some (ok texts)
unfolding lookup_txt_records
txt_run = refl

mx_run :
    lookup_mx_records (λ e. false) (λ e. e) lookup (codes "example.org")
    ≡ ok ((10, codes "c.") ∷ (20, codes "b.") ∷ (20, codes "a.") ∷ [])
unfolding lookup_mx_records
mx_run = refl

caa_run : lookup_caa_records (λ e. false) (λ e. e) lookup (codes "example.org") ≡ err false
unfolding lookup_caa_records
caa_run = refl

lookup_txt_records-IsBounded_example :
    (lookup_txt_records (λ e. false) (λ e. e) lookup (codes "example.org")
      ≡ some (txt_result (λ e. false) (λ e. e) (lookup (codes "example.org") RecordType.txt)))
    × IsBounded
        (λ e. false)
        (λ e. e)
        (txt_result (λ e. false) (λ e. e) (lookup (codes "example.org") RecordType.txt))
lookup_txt_records-IsBounded_example =
    lookup_txt_records-IsBounded (λ e. false) (λ e. e) lookup (codes "example.org")

extract_run : extract_spf_record texts ≡ some (codes "v=SPF1 -all")
unfolding extract_spf_record is_spf_txt
extract_run = refl

type_run : detect_txt_type (λ s. s) (codes "v=BIMI1; ms-verify") ≡ codes "BIMI"
unfolding detect_txt_type
type_run = refl

extract-detect_txt_type_example :
    IsFirst
      (λ txt. text_eq (detect_txt_type (λ s. s) txt) (txt_type Policy.spf))
      texts
      (extract Policy.spf texts)
extract-detect_txt_type_example = extract-detect_txt_type (λ s. s) Policy.spf texts

-- ===== src/Dns/Extract.antt =====
-- src/dns/extract.rs: the policies among the TXT records, and `detect_txt_type` of
-- src/storage/insert/utils.rs.
use domain_status.Common.{
  Bool, false, Option, none, some, List, [], ◌∷◌, Text, codes, trim, utf8_len, contains, ◌||◌,
  eq_ignore_ascii_case, if◌then◌else◌,
}
use domain_status.Sanitize.{slice_to}

abbrev pub is_tag : Text → Option Text → Bool
is_tag tag none = false
is_tag tag (some prefix) = eq_ignore_ascii_case prefix tag

unfoldable pub starts_with_tag : Text → Text → Bool
unfolding slice_to
starts_with_tag txt tag = is_tag tag (slice_to (trim txt) (utf8_len tag))

-- `find`, and the trim of what is found.
unfoldable pub extract_first : (Text → Bool) → List Text → Option Text
extract_first pred [] = none
extract_first pred (txt ∷ txt_records) =
    let rest = extract_first pred txt_records in if pred txt then some (trim txt) else rest

unfoldable pub is_spf_txt : Text → Bool
unfolding starts_with_tag
is_spf_txt txt = starts_with_tag txt (codes "v=spf1")

unfoldable pub is_dmarc_txt : Text → Bool
unfolding starts_with_tag
is_dmarc_txt txt = starts_with_tag txt (codes "v=dmarc1")

unfoldable pub is_mta_sts_txt : Text → Bool
unfolding starts_with_tag
is_mta_sts_txt txt = starts_with_tag txt (codes "v=stsv1")

unfoldable pub is_tls_rpt_txt : Text → Bool
unfolding starts_with_tag
is_tls_rpt_txt txt = starts_with_tag txt (codes "v=tlsrptv1")

unfoldable pub is_bimi_txt : Text → Bool
unfolding starts_with_tag
is_bimi_txt txt = starts_with_tag txt (codes "v=bimi1")

unfoldable pub extract_spf_record : List Text → Option Text
unfolding extract_first
extract_spf_record txt_records = extract_first is_spf_txt txt_records

unfoldable pub extract_dmarc_record : List Text → Option Text
unfolding extract_first
extract_dmarc_record txt_records = extract_first is_dmarc_txt txt_records

unfoldable pub extract_mta_sts_record : List Text → Option Text
unfolding extract_first
extract_mta_sts_record txt_records = extract_first is_mta_sts_txt txt_records

unfoldable pub extract_tls_rpt_record : List Text → Option Text
unfolding extract_first
extract_tls_rpt_record txt_records = extract_first is_tls_rpt_txt txt_records

unfoldable pub extract_bimi_record : List Text → Option Text
unfolding extract_first
extract_bimi_record txt_records = extract_first is_bimi_txt txt_records

abbrev pub is_verification : Text → Bool
is_verification txt_lower =
    contains (codes "google-site-verification") txt_lower
    || contains (codes "ms-verify") txt_lower
    || contains (codes "facebook-domain-verification") txt_lower
    || contains (codes "atlassian-domain-verification") txt_lower

-- `to_lowercase` is that of `str`.
unfoldable pub detect_txt_type : (Text → Text) → Text → Text
unfolding is_spf_txt is_dmarc_txt is_mta_sts_txt is_tls_rpt_txt is_bimi_txt
detect_txt_type to_lowercase txt =
    if is_spf_txt txt
    then codes "SPF"
    else if is_dmarc_txt txt
    then codes "DMARC"
    else if is_mta_sts_txt txt
    then codes "MTA-STS"
    else if is_tls_rpt_txt txt
    then codes "TLS-RPT"
    else if is_bimi_txt txt
    then codes "BIMI"
    else if is_verification (to_lowercase txt)
    then codes "VERIFICATION"
    else codes "OTHER"

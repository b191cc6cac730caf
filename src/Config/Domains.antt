-- ===== src/Config/Domains.antt =====
-- internal/core/config/validate/validate.go: the checks of domain names. net.ParseIP is an argument:
-- whether it reads the text as an address.
use bgscan.Base.{
  ℕ, ◌≡◌, refl, Bool, true, false, not, ◌&&◌, ◌||◌, List, [], ◌∷◌, Option, none, some, ltb, leb,
  ◌==◌, length, if◌then◌else◌, if-elim,
}
use bgscan.Config.Texts.{Text, codes, any_char, blank, same_text}
use bgscan.Config.Checks.{
  CheckError, check_string, scheme_not_allowed, path_or_port, invalid_domain,
}

abbrev pub is_digit : ℕ → Bool
is_digit c = leb b'0' c && leb c b'9'

abbrev pub is_letter : ℕ → Bool
is_letter c = (leb b'a' c && leb c b'z') || (leb b'A' c && leb c b'Z')

abbrev pub is_alphanumeric : ℕ → Bool
is_alphanumeric c = is_letter c || is_digit c

-- The rest of schemeRegex after its first letter.
abbrev pub scheme_rest : Text → Bool
scheme_rest [] = false
scheme_rest (c ∷ []) = false
scheme_rest (c ∷ d ∷ []) = false
scheme_rest (c ∷ d ∷ e ∷ s) =
    (c == b':' && d == b'/' && e == b'/')
    || ((is_alphanumeric c || c == b'+' || c == b'.' || c == b'-') && scheme_rest (d ∷ e ∷ s))

-- hasScheme.
abbrev pub has_scheme : Text → Bool
has_scheme [] = false
has_scheme (c ∷ s) = is_letter c && scheme_rest s

-- strings.Split at the dots.
abbrev pub put_first : ℕ → List Text → List Text
put_first c [] = (c ∷ []) ∷ []
put_first c (l ∷ ls) = (c ∷ l) ∷ ls

abbrev pub split_dots : Text → List Text
split_dots [] = [] ∷ []
split_dots (c ∷ s) = if c == b'.' then [] ∷ split_dots s else put_first c (split_dots s)

-- The characters of a label after its first: the last is not a hyphen.
abbrev pub label_rest : Text → Bool
label_rest [] = true
label_rest (c ∷ []) = is_alphanumeric c
label_rest (c ∷ d ∷ s) = (is_alphanumeric c || c == b'-') && label_rest (d ∷ s)

abbrev pub is_label : Text → Bool
is_label [] = false
is_label (c ∷ s) = is_alphanumeric c && label_rest s && ltb (length s) 63

abbrev pub all_labels : List Text → Bool
all_labels [] = true
all_labels (l ∷ ls) = is_label l && all_labels ls

-- domainRegex: labels with a dot between them, two of them at least.
abbrev pub two_labels : List Text → Bool
two_labels [] = false
two_labels (l ∷ []) = false
two_labels (l ∷ m ∷ ls) = all_labels (l ∷ m ∷ ls)

abbrev pub all_numeric : Text → Bool
all_numeric s = not (any_char (λ c. not (is_digit c)) s)

abbrev pub last_label : List Text → Text
last_label [] = []
last_label (l ∷ []) = l
last_label (l ∷ m ∷ ls) = last_label (m ∷ ls)

unfoldable pub is_valid_domain : (Text → Bool) → Text → Bool
is_valid_domain is_ip host =
    if same_text host [] || ltb 253 (length host)
    then false
    else if is_ip host
    then true
    else if same_text host (codes "localhost")
    then true
    else two_labels (split_dots host) && not (all_numeric (last_label (split_dots host)))

unfoldable pub check_sni : (Text → Bool) → Text → Option CheckError
unfolding is_valid_domain
check_sni is_ip sni =
    if blank sni
    then none
    else if has_scheme sni
    then some scheme_not_allowed
    else if any_char (λ c. c == b'/') sni || any_char (λ c. c == b':') sni
    then some path_or_port
    else if not (is_valid_domain is_ip sni)
    then some invalid_domain
    else none

abbrev pub first_check : Option CheckError → Option CheckError → Option CheckError
first_check none e = e
first_check (some e) other = some e

unfoldable pub check_domain : (Text → Bool) → Text → Option CheckError
unfolding check_sni
check_domain is_ip domain = first_check (check_string domain) (check_sni is_ip domain)

-- The default domain is valid, whatever net.ParseIP makes of it.
pub check_domain-example : (is_ip : Text → Bool) → check_domain is_ip (codes "example.com") ≡ none
unfolding check_domain check_sni check_string is_valid_domain
check_domain-example is_ip =
    if-elim (λ (b : Bool). (if not b then some invalid_domain else none) ≡ none)
      (is_ip (codes "example.com")) (λ _. refl) (λ _. refl)

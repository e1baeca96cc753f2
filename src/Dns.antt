-- ===== src/Dns.antt =====
-- app/services/dns.py: the checks of a domain and of an address, and the file that is rendered.
-- `ipaddress.ip_address` is a parameter: whether it takes a text.
pub mod File
pub mod Lines
pub mod Reading
mod Tests
use openvpn_connect_web.Prelude.{
  Bool, Option, [], all, false, if◌then◌else◌, leb, length, none, not, some, ℕ, ◌&&◌, ◌==◌, ◌||◌,
  ◌∷◌,
}
use openvpn_connect_web.Prelude.Text.{
  Text, is_digit, lower, nonempty, split, starts_with, strip, text,
}

-- MAX_DOMAIN_LENGTH
abbrev pub max_domain_length : ℕ
max_domain_length = 253

-- `.rstrip(".")`
unfoldable pub rstrip_dots : Text → Text
rstrip_dots [] = []
rstrip_dots (c ∷ s) =
    let rest = rstrip_dots s in if (c == 46) && not (nonempty rest) then [] else c ∷ rest

unfoldable pub is_label_char : ℕ → Bool
unfolding is_digit
is_label_char c = is_digit c || (leb 65 c && leb c 90) || (leb 97 c && leb c 122) || (c == 45)

abbrev pub ends_in_hyphen : Text → Bool
ends_in_hyphen [] = false
ends_in_hyphen (c ∷ []) = c == 45
ends_in_hyphen (c ∷ d ∷ s) = ends_in_hyphen (d ∷ s)

-- `_LABEL`
unfoldable pub is_label : Text → Bool
unfolding is_label_char starts_with
is_label s =
    nonempty s
    && leb (length s) 63
    && all is_label_char s
    && not (starts_with s (text "-"))
    && not (ends_in_hyphen s)

-- the `$` of a pattern also stands before a newline at the very end
unfoldable pub drop_final_newline : Text → Text
drop_final_newline [] = []
drop_final_newline (c ∷ []) = if c == 10 then [] else c ∷ []
drop_final_newline (c ∷ d ∷ s) = c ∷ drop_final_newline (d ∷ s)

-- `DOMAIN.match(domain)`
unfoldable pub is_domain : Text → Bool
unfolding split drop_final_newline is_label
is_domain s = all is_label (split 46 (drop_final_newline s))

-- the domain, or `none` for the `DnsError`
unfoldable pub validate_domain : Text → Option Text
unfolding strip rstrip_dots lower is_domain
validate_domain value =
    let domain = lower (rstrip_dots (strip value)) in
    if not (nonempty domain)
      || not (leb (length domain) max_domain_length)
      || not (is_domain domain)
    then none
    else some domain

unfoldable pub validate_address : (Text → Bool) → Text → Option Text
unfolding strip
validate_address is_address value = if is_address (strip value) then some (strip value) else none

-- ===== src/Whois.antt =====
-- The lookups of who a destination belongs to, and their cache (app/services/whois.py). `ask` is
-- `_query`, what the whois service answers at the time, and `is_public` the test of a destination;
-- both go through libraries and the network. The threads of one batch work on different destinations
-- and so on different entries: the batch is one lookup after another.
pub mod Repeat
mod Tests
use openvpn_connect_web.Prelude.{
  Bool, List, Option, [], filter, if◌then◌else◌, ltb, none, not, some, take, ℕ, ◌*◌, ◌-◌, ◌∷◌,
}
use openvpn_connect_web.Prelude.Text.{Text, text_eq, truthy}

abbrev pub cache_ttl : ℕ
cache_ttl = 24 * 3600

abbrev pub negative_ttl : ℕ
negative_ttl = 600

abbrev pub max_batch : ℕ
max_batch = 40

pub record Entry : Type 0 where
  pub stamped : ℕ
  pub org : Option Text

-- `_cache`
abbrev pub Cache : Type 0
Cache = Text → Option Entry

abbrev pub put : Text → Option Entry → Cache → Cache
put d entry cache = λ e. if text_eq e d then entry else cache e

abbrev pub ttl : Entry → ℕ
ttl entry = if truthy entry.org then cache_ttl else negative_ttl

-- a hit with its value, or a miss
abbrev pub peek_entry : (now : ℕ) → Text → Option Entry → Cache → Option (Option Text) × Cache
peek_entry now d none cache = (none, cache)
peek_entry now d (some entry) cache =
    if ltb (ttl entry) (now - entry.stamped)
    then (none, put d none cache)
    else (some entry.org, cache)

-- `_peek_cache`
unfoldable pub peek_cache : (now : ℕ) → Text → Cache → Option (Option Text) × Cache
peek_cache now d cache = peek_entry now d (cache d) cache

-- `_store`
unfoldable pub store : (now : ℕ) → Text → Option Text → Cache → Cache
store now d org cache = put d (some (record { stamped = now; org = org })) cache

pub record WhoisResult : Type 0 where
  pub destination : Text
  pub organisation : Option Text

-- `list(dict.fromkeys(…))`
abbrev pub unique : List Text → List Text
unique [] = []
unique (d ∷ ds) = d ∷ filter (λ e. not (text_eq e d)) (unique ds)

module _ (ask : Text → Option Text) (now : ℕ) where
  abbrev pub resolved : Text → Option (Option Text) × Cache → Option Text × Cache
  resolved d (some org, cache) = (org, cache)
  resolved d (none, cache) = (ask d, store now d (ask d) cache)

  -- `_resolve`
  unfoldable pub resolve : Text → Cache → Option Text × Cache
  unfolding peek_cache store
  resolve d cache = resolved d (peek_cache now d cache)

  unfoldable pub resolve_all : List Text → Cache → List WhoisResult × Cache
  unfolding resolve
  resolve_all [] cache = ([], cache)
  resolve_all (d ∷ ds) cache =
      let this = resolve d cache in
      let rest = resolve_all ds this.1 in
      (record { destination = d; organisation = this.0 } ∷ rest.0, rest.1)

  unfoldable pub lookup_many :
      (is_public : Text → Bool) → List Text → Cache → List WhoisResult × Cache
  unfolding resolve_all
  lookup_many is_public destinations cache =
      resolve_all (take max_batch (unique (filter is_public destinations))) cache

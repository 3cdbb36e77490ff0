-- ===== src/Middleware/RateLimit.antt =====
-- internal/middleware/ratelimit.go: the maps of limiters, which one lock guards, so that requests and
-- clean-ups take effect one after the other.
pub mod Isolation
use go_s.Prelude.{
  ℕ, ◌+◌, Bytes, codes, Option, none, some, List, [], ◌∷◌, Bool, true, false, not, ◌||◌, ◌&&◌,
  if◌then◌else◌, ltb, ◌==◌, bytes_eq, is_empty, has_prefix, split, keep,
}
use go_s.Storage.{Time}

-- rate.Limiter of golang.org/x/time/rate: NewLimiter(limit, burst), and Allow at a time.
pub record Limits : Type 1 where
  pub Limiter : Type 0
  pub new_limiter : ℕ → ℕ → Limiter
  pub allow : Time → Limiter → Bool × Limiter

-- `found` is a map from keys to clients, with `insert` and `delete` for its writes.
module _ {V : Type 0} where
  unfoldable pub find : Bytes → List (Bytes × V) → Option V
  find key [] = none
  find key ((k, v) ∷ m) = let rest = find key m in if bytes_eq key k then some v else rest

  unfoldable pub insert : Bytes → V → List (Bytes × V) → List (Bytes × V)
  insert key v [] = (key, v) ∷ []
  insert key v ((k, w) ∷ m) =
      let rest = insert key v m in if bytes_eq key k then (key, v) ∷ m else (k, w) ∷ rest

unfoldable pub drop_slashes : Bytes → Bytes
drop_slashes [] = []
drop_slashes (c ∷ s) = let rest = drop_slashes s in if c == b'/' then rest else c ∷ s

unfoldable pub drop_last_slashes : Bytes → Bytes
drop_last_slashes [] = []
drop_last_slashes (c ∷ s) =
    let rest = drop_last_slashes s in if c == b'/' && is_empty rest then [] else c ∷ rest

abbrev pub head_or_empty : List Bytes → Bytes
head_or_empty [] = []
head_or_empty (part ∷ parts) = part

-- strings.Split(strings.Trim(path, "/"), "/")[0]
unfoldable pub first_segment : Bytes → Bytes
unfolding drop_slashes drop_last_slashes split
first_segment path = head_or_empty (split b'/' (drop_last_slashes (drop_slashes path)))

-- time.Since(c.lastSeen) > 3*time.Minute
abbrev pub is_idle : Time → Time → Bool
is_idle now last_seen = ltb (last_seen + 180000000000) now

module _ (R : Limits) where
  pub record Client : Type 0 where
    pub limiter : R.Limiter
    pub last_seen : Time

  abbrev pub Clients : Type 0
  Clients = List (Bytes × Client)

  pub record Config : Type 0 where
    pub enabled : Bool
    pub requests_per_second : ℕ
    pub burst : ℕ

  abbrev pub client_or_new : Config → Time → Option Client → Client
  client_or_new cfg now (some c) = record c { last_seen = now }
  client_or_new cfg now none = record {
    limiter = R.new_limiter cfg.requests_per_second cfg.burst;
    last_seen = now;
  }

  -- A client that has asked its limiter.
  abbrev pub asked : Time → Client → Bool × Client
  asked now c = let r = R.allow now c.limiter in (r.0, record c { limiter = r.1 })

  -- Whether a request from the address goes on, and the map after it.
  unfoldable pub admit : Config → Time → Bytes → Clients → Bool × Clients
  unfolding find insert
  admit cfg now ip clients =
      if cfg.enabled
      then (let r = asked now (client_or_new cfg now (find ip clients)) in
          (r.0, insert ip r.1 clients))
      else (true, clients)

  -- A round of the goroutine that forgets idle clients.
  unfoldable pub clean_up : Time → Clients → Clients
  clean_up now [] = []
  clean_up now ((k, c) ∷ m) =
      let rest = clean_up now m in if is_idle now c.last_seen then rest else (k, c) ∷ rest

  pub record AdvancedClient : Type 0 where
    pub read_limiter : R.Limiter
    pub write_limiter : R.Limiter
    pub last_seen : Time

  pub record Quota : Type 0 where
    pub enabled : Bool
    pub read_rps : ℕ
    pub write_rps : ℕ
    pub burst : ℕ

  abbrev pub advanced_or_new : Quota → Time → Option AdvancedClient → AdvancedClient
  advanced_or_new q now (some c) = record c { last_seen = now }
  advanced_or_new q now none = record {
    read_limiter = R.new_limiter q.read_rps q.burst;
    write_limiter = R.new_limiter q.write_rps q.burst;
    last_seen = now;
  }

  abbrev pub asked_for : Bool → Time → AdvancedClient → Bool × AdvancedClient
  asked_for true now c =
      let r = R.allow now c.write_limiter in (r.0, record c { write_limiter = r.1 })
  asked_for false now c =
      let r = R.allow now c.read_limiter in (r.0, record c { read_limiter = r.1 })

  abbrev pub is_write : Bytes → Bool
  is_write method =
      bytes_eq method (codes "PUT")
      || bytes_eq method (codes "POST")
      || bytes_eq method (codes "DELETE")

  -- The step for one of the two maps; `key` is none for a request that the map does not limit.
  unfoldable pub admit_key :
      Quota
      → Bool
      → Time
      → Option Bytes
      → List (Bytes × AdvancedClient)
      → Bool × List (Bytes × AdvancedClient)
  admit_key q write now key clients = elim key [
    | none ↦ (true, clients)
    | some k ↦
        let r = asked_for write now (advanced_or_new q now (find k clients)) in
        (r.0, insert k r.1 clients)
  ]

  pub record AdvancedState : Type 0 where
    pub user_clients : List (Bytes × AdvancedClient)
    pub bucket_clients : List (Bytes × AdvancedClient)

  -- The user's access key, or the name; anonymous requests are not limited.
  unfoldable pub user_key : Quota → Bytes → Bytes → Option Bytes
  unfolding bytes_eq
  user_key q access_key_id username =
      let id = if is_empty access_key_id then username else access_key_id in
      if not q.enabled || is_empty id || bytes_eq id (codes "anonymous") then none else some id

  unfoldable pub bucket_key : Quota → Bytes → Option Bytes
  unfolding has_prefix first_segment
  bucket_key q path =
      let bucket = first_segment path in
      if not q.enabled || is_empty bucket || has_prefix bucket (codes "_")
      then none
      else some bucket

  -- A refused user does not reach the limiter of the bucket.
  unfoldable pub admit_advanced :
      Quota
      → Quota
      → Bytes
      → Time
      → Option Bytes
      → Option Bytes
      → AdvancedState
      → Bool × AdvancedState
  unfolding admit_key
  admit_advanced per_user per_bucket method now user bucket s =
      let u = admit_key per_user (is_write method) now user s.user_clients in
      if u.0
      then (let b = admit_key per_bucket (is_write method) now bucket s.bucket_clients in
          (b.0, record { user_clients = u.1; bucket_clients = b.1 }))
      else (false, record s { user_clients = u.1 })

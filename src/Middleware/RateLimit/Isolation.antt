-- ===== src/Middleware/RateLimit/Isolation.antt =====
-- Each address has a limiter of its own.
use go_s.Prelude.{
  ◌+◌, ltb, Bool, Bytes, Option, none, some, List, [], ◌∷◌, true, ◌≡◌, refl, sym, ap, ◌∙◌, inl, inr,
  if◌then◌else◌, bytes_eq, bytes_eq_iff, arith, Bool-cases,
}
use go_s.Storage.{Time}
use go_s.Middleware.RateLimit.{
  Limits, find, insert, is_idle, Client, Clients, Config, client_or_new, asked, admit, clean_up,
}

module _ {V : Type 0} where
  find-insert :
      (key k : Bytes) (v : V) (m : List (Bytes × V))
      → find k (insert key v m) ≡ (if bytes_eq k key then some v else find k m)
  unfolding find insert
  find-insert key k v [] = refl
  find-insert key k v ((j, w) ∷ m) =
      ground
        (arith, bytes_eq_iff k key, bytes_eq_iff key j, bytes_eq_iff k j, find-insert key k v m)

-- What befalls the map: a request from an address, or a round of the clean-up.
pub data Event : Type 0 where
  request : Bytes → Time → Event
  cleaning : Time → Event

module _ (R : Limits) (cfg : Config R) where
  unfoldable pub happen : Event → Clients R → Clients R
  happen (request ip now) m = (admit R cfg now ip m).1
  happen (cleaning now) m = clean_up R now m

  unfoldable pub run : List Event → Clients R → Clients R
  unfolding happen
  run [] m = m
  run (e ∷ es) m = run es (happen e m)

  -- The limiter of an address: the one it has, or a full one at the configured rate.
  abbrev pub own_limiter : Option (Client R) → R.Limiter
  own_limiter none = R.new_limiter cfg.requests_per_second cfg.burst
  own_limiter (some c) = c.limiter

  -- The same events as one address alone meets them: its limiter is asked at its own requests, and is
  -- forgotten once three minutes have passed since the last.
  abbrev pub alone : Bytes → Event → Option (Client R) → Option (Client R)
  alone ip (request other now) c =
      if bytes_eq ip other
      then some (record { limiter = (R.allow now (own_limiter c)).1; last_seen = now })
      else c
  alone ip (cleaning now) none = none
  alone ip (cleaning now) (some c) = if ltb (c.last_seen + 180000000000) now then none else some c

  abbrev pub run_alone : Bytes → List Event → Option (Client R) → Option (Client R)
  run_alone ip [] c = c
  run_alone ip (e ∷ es) c = run_alone ip es (alone ip e c)

  -- No two entries of the map have one address.
  abbrev pub IsMap : Clients R → Type 0
  IsMap [] = Unit
  IsMap ((k, c) ∷ m) = (find k m ≡ none) × IsMap m

  IsMap-insert : (key : Bytes) (v : Client R) (m : Clients R) → IsMap m → IsMap (insert key v m)
  unfolding find insert
  IsMap-insert key v [] h = (refl, tt)
  IsMap-insert key v ((k, c) ∷ m) h = elim (Bool-cases (bytes_eq key k)) [
    | inl e ↦ rw e (rw ((bytes_eq_iff key k).0 e) h)
    | inr e ↦ rw e (
      find-insert key k v m ∙ ground (arith, bytes_eq_iff k key, bytes_eq_iff key k, h.0),
      IsMap-insert key v m h.1,
    )
  ]

  find-clean_up-none :
      (now : Time) (k : Bytes) (m : Clients R) → find k m ≡ none → find k (clean_up R now m) ≡ none
  unfolding find clean_up
  find-clean_up-none now k [] h = refl
  find-clean_up-none now k ((j, c) ∷ m) h = ground (arith, h, find-clean_up-none now k m)

  IsMap-clean_up : (now : Time) (m : Clients R) → IsMap m → IsMap (clean_up R now m)
  unfolding clean_up
  IsMap-clean_up now [] h = tt
  IsMap-clean_up now ((k, c) ∷ m) h = elim (Bool-cases (is_idle now c.last_seen)) [
    | inl e ↦ rw e (IsMap-clean_up now m h.1)
    | inr e ↦ rw e (find-clean_up-none now k m h.0, IsMap-clean_up now m h.1)
  ]

  find-clean_up :
      (now : Time) (ip : Bytes) (m : Clients R)
      → IsMap m
      → find ip (clean_up R now m) ≡ alone ip (cleaning now) (find ip m)
  unfolding find clean_up
  find-clean_up now ip [] h = refl
  find-clean_up now ip ((k, c) ∷ m) h = elim (Bool-cases (is_idle now c.last_seen)) [
    | inl e ↦ elim (Bool-cases (bytes_eq ip k)) [
      | inl f ↦
          let same : ip ≡ k = (bytes_eq_iff ip k).0 f in
          rw (e, f) (find-clean_up-none now ip m (rw same h.0) ∙ rw e refl)
      | inr f ↦ rw e (rw f (find-clean_up now ip m h.1))
    ]
    | inr e ↦ elim (Bool-cases (bytes_eq ip k)) [
      | inl f ↦ rw (e, f) (rw e refl)
      | inr f ↦ rw (e, f) (find-clean_up now ip m h.1)
    ]
  ]

  -- What the limiter of an address answers, and what it leaves of it.
  asked_lem :
      (now : Time) (c : Option (Client R))
      → asked R now (client_or_new R cfg now c) ≡ (
        (R.allow now (own_limiter c)).0,
        record { limiter = (R.allow now (own_limiter c)).1; last_seen = now },
      )
  asked_lem now none = refl
  asked_lem now (some c) = refl

  verdict :
      (now : Time) (ip : Bytes) (m : Clients R)
      → cfg.enabled ≡ true
      → (admit R cfg now ip m).0 ≡ (R.allow now (own_limiter (find ip m))).0
  unfolding admit
  verdict now ip m on =
      rw (on, admit) (ap (λ (a : Bool × Client R). a.0) (asked_lem now (find ip m)))

  find-happen :
      (e : Event) (ip : Bytes) (m : Clients R)
      → cfg.enabled ≡ true
      → IsMap m
      → (find ip (happen e m) ≡ alone ip e (find ip m)) × IsMap (happen e m)
  unfolding happen admit
  find-happen (request other now) ip m on h =
      let next : Client R = (asked R now (client_or_new R cfg now (find other m))).1 in
      rw on (
        find-insert other ip next m ∙ elim (Bool-cases (bytes_eq ip other)) [
          | inl e ↦
              let same : ip ≡ other = (bytes_eq_iff ip other).0 e in
              rw e (
                ap (λ k. some (asked R now (client_or_new R cfg now (find k m))).1) (sym same)
                ∙ ap (λ (a : Bool × Client R). some a.1) (asked_lem now (find ip m)))
          | inr e ↦ rw e refl
        ],
        IsMap-insert other next m h,
      )
  find-happen (cleaning now) ip m on h = (find-clean_up now ip m h, IsMap-clean_up now m h)

  find-run_alone :
      (es : List Event) (ip : Bytes) (m : Clients R)
      → cfg.enabled ≡ true
      → IsMap m
      → find ip (run es m) ≡ run_alone ip es (find ip m)
  unfolding run
  find-run_alone [] ip m on h = refl
  find-run_alone (e ∷ es) ip m on h =
      let (f, k) = find-happen e ip m on h in
      find-run_alone es ip (happen e m) on k ∙ ap (run_alone ip es) f

  -- Where the rate limit is enabled, what the map holds for an address after any sequence of requests,
  -- from any addresses, and rounds of the clean-up is what the address alone comes to with its own
  -- requests and the clean-ups: each request asks the limiter that the requests before have used, or a
  -- new one of the configured rate and burst if there is none, and a clean-up forgets it when more than
  -- three minutes have passed since the last request. The next request of the address goes on exactly
  -- if this limiter allows it. The map has no two entries for one address at the start.
  pub find-run :
      (es : List Event) (ip : Bytes) (now : Time) (m : Clients R)
      → cfg.enabled ≡ true
      → IsMap m
      → (find ip (run es m) ≡ run_alone ip es (find ip m))
        × ((admit R cfg now ip (run es m)).0
            ≡ (R.allow now (own_limiter (run_alone ip es (find ip m)))).0)
  find-run es ip now m on h =
      let found = find-run_alone es ip m on h in
      (found, verdict now ip (run es m) on ∙ ap (λ c. (R.allow now (own_limiter c)).0) found)

-- ===== src/Metadata/Listing/Bounds.antt =====
-- What holds of every page of ListObjects, with or without a delimiter.
use mathlib.Core.Path.{subst}
use go_s.Prelude.{
  Error, ℕ, zero, suc, ◌+◌, ◌≤◌, ◌<◌, ◌≡◌, refl, Bytes, true, false, not, ◌&&◌, arith, Bool-cases,
  Option-cases, inl, inr, is_empty, List, [], ◌∷◌, ◌++◌, Option, none, some, has_prefix, All, any,
  bytes_eq, bytes_eq_iff, ok, err, Result, length, length-append, leb, ok-injective,
}
use go_s.Bolt.{Bolt, Codec, Entries}
use go_s.Storage.{ObjectMeta, ObjectInfo}
use go_s.Metadata.Names.{objects_of}
use go_s.Metadata.Listing.{
  Page, Turn, done, failed, next, info_of, list_objects, list_loop, list_turn, roll_up, add_object,
  common_prefix, start_at,
}
use go_s.Metadata.Listing.Pages.{page_size}

-- No prefix is listed twice.
abbrev pub Distinct : List Bytes → Type 0
Distinct [] = Unit {0}
Distinct (p ∷ ps) = (any (bytes_eq p) ps ≡ false) × Distinct ps

any-append :
    (p q : Bytes) (ps : List Bytes)
    → any (bytes_eq p) ps ≡ false
    → bytes_eq p q ≡ false
    → any (bytes_eq p) (ps ++ q ∷ []) ≡ false
any-append p q [] h e = ground arith
any-append p q (r ∷ ps) h e = ground (arith, any-append p q ps)

Distinct-append :
    (q : Bytes) (ps : List Bytes)
    → Distinct ps
    → any (bytes_eq q) ps ≡ false
    → Distinct (ps ++ q ∷ [])
Distinct-append q [] d h = (refl, tt)
Distinct-append q (p ∷ ps) d h =
    ground (arith, any-append p q ps, Distinct-append q ps d.1, bytes_eq_iff q p, bytes_eq_iff p q)

All-append_one {ℓ κ} :
    {A : Type ℓ} (P : A → Type κ) (xs : List A) (y : A) → All P xs → P y → All P (xs ++ y ∷ [])
All-append_one P [] y h p = (p, tt)
All-append_one P (x ∷ xs) y h p = (h.0, All-append_one P xs y h.1 p)

module _ (pfx delimiter : Bytes) where
  -- A key that is listed as an object.
  abbrev pub IsListed : ObjectInfo → Type 0
  IsListed o = (has_prefix o.key pfx ≡ true) × (common_prefix pfx delimiter o.key ≡ none)

  -- The objects and the prefixes that a listing of at most `n` rows holds.
  pub record IsSound (n : ℕ) (objects : List ObjectInfo) (prefixes : List Bytes) : Type 0 where
    pub bound : length objects + length prefixes ≤ n
    pub listed : All IsListed objects
    pub distinct : Distinct prefixes

le-page_size : (n : ℕ) → n ≤ page_size n
le-page_size zero = omega arith
le-page_size (suc n) = omega arith

page_size_pos : (n : ℕ) → 0 + 0 < page_size n
page_size_pos zero = omega arith
page_size_pos (suc n) = omega arith

err_not_ok : {x : Error} {page : Page} → ¬ (◌≡◌ {A = Result Page} (err x) (ok page))
err_not_ok h = cc

-- A key that does not end the loop has the prefix.
pub prefix_holds :
    (key pfx : Bytes)
    → not (is_empty pfx) && not (has_prefix key pfx) ≡ false
    → has_prefix key pfx ≡ true
unfolding has_prefix
prefix_holds key [] h = refl
prefix_holds key (p ∷ ps) h = ground arith

module _ (C : Codec ObjectMeta) (pfx delimiter : Bytes) (max_keys : ℕ) where
  -- What a turn leaves: a sound page, or a sound state with room for one more row.
  abbrev Keeps : Turn → Type 0
  Keeps (done page) = IsSound pfx delimiter (page_size max_keys) page.objects page.common_prefixes
  Keeps (failed e) = Unit {0}
  Keeps (next objects prefixes) =
      IsSound pfx delimiter (page_size max_keys) objects prefixes
      × (length objects + length prefixes < page_size max_keys)

  room : (n : ℕ) → leb max_keys n ≡ false → n < page_size max_keys
  room n h = ground (arith, le-page_size max_keys)

  roll_up-Keeps :
      (p : Bytes) (objects : List ObjectInfo) (prefixes : List Bytes)
      → Keeps (next objects prefixes)
      → Keeps (roll_up C pfx delimiter max_keys p objects prefixes)
  unfolding roll_up
  roll_up-Keeps p objects prefixes (s, r) = elim (Bool-cases (any (bytes_eq p) prefixes)) [
    | inl e ↦ rw (e, roll_up) (s, r)
    | inr e ↦
        let count = length-append prefixes (p ∷ []) in
        let s' : IsSound pfx delimiter (page_size max_keys) objects (prefixes ++ p ∷ []) = record {
          bound = omega (arith, count);
          listed = s.listed;
          distinct = Distinct-append p prefixes s.distinct e;
        } in
        elim (Bool-cases (leb max_keys (length objects + length (prefixes ++ p ∷ [])))) [
          | inl q ↦ rw (e, q, roll_up) s'
          | inr q ↦ rw (e, q, roll_up) (s', room (length objects + length (prefixes ++ p ∷ [])) q)
        ]
  ]

  add_object-Keeps :
      (key : Bytes) (o : Option ObjectMeta) (objects : List ObjectInfo) (prefixes : List Bytes)
      → has_prefix key pfx ≡ true
      → common_prefix pfx delimiter key ≡ none
      → Keeps (next objects prefixes)
      → Keeps (add_object C pfx delimiter max_keys key o objects prefixes)
  unfolding add_object
  add_object-Keeps key none objects prefixes h c k = tt
  add_object-Keeps key (some m) objects prefixes h c (s, r) =
      let objects' = objects ++ info_of key m ∷ [] in
      let count = length-append objects (info_of key m ∷ []) in
      let s' : IsSound pfx delimiter (page_size max_keys) objects' prefixes = record {
        bound = omega (arith, count);
        listed = All-append_one (IsListed pfx delimiter) objects (info_of key m) s.listed (h, c);
        distinct = s.distinct;
      } in
      elim (Bool-cases (leb max_keys (length objects' + length prefixes))) [
        | inl q ↦ rw (q, add_object) s'
        | inr q ↦ rw (q, add_object) (s', room (length objects' + length prefixes) q)
      ]

  list_turn-Keeps :
      (key text : Bytes) (objects : List ObjectInfo) (prefixes : List Bytes)
      → Keeps (next objects prefixes)
      → Keeps (list_turn C pfx delimiter max_keys key text objects prefixes)
  unfolding list_turn
  list_turn-Keeps key text objects prefixes (s, r) =
      elim (Bool-cases (not (is_empty pfx) && not (has_prefix key pfx))) [
        | inl e ↦ rw (e, list_turn) s
        | inr e ↦ elim (Option-cases (common_prefix pfx delimiter key)) [
          | inl c ↦
              rw (e, c, list_turn)
                (add_object-Keeps key (C.unmarshal text) objects prefixes (prefix_holds key pfx e) c
                  (s, r))
          | inr (p, c) ↦ rw (e, c, list_turn) (roll_up-Keeps p objects prefixes (s, r))
        ]
      ]

  -- A page that the loop returns from a sound state is sound.
  list_loop-IsSound :
      (es : Entries) (objects : List ObjectInfo) (prefixes : List Bytes) (page : Page)
      → Keeps (next objects prefixes)
      → list_loop C pfx delimiter max_keys es objects prefixes ≡ ok page
      → IsSound pfx delimiter (page_size max_keys) page.objects page.common_prefixes
  unfolding list_loop
  list_loop-IsSound [] objects prefixes page (s, r) h = ground (arith, s)
  list_loop-IsSound ((k, v) ∷ es) objects prefixes page keeps h =
      split (list_turn C pfx delimiter max_keys k v objects prefixes) refl
        (list_turn-Keeps k v objects prefixes keeps)
        (λ o p kept g. list_loop-IsSound es o p page kept g)
    where
      split :
          (t : Turn)
          → list_turn C pfx delimiter max_keys k v objects prefixes ≡ t
          → Keeps t
          → ((o : List ObjectInfo) (p : List Bytes)
              → Keeps (next o p)
              → list_loop C pfx delimiter max_keys es o p ≡ ok page
              → IsSound pfx delimiter (page_size max_keys) page.objects page.common_prefixes)
          → IsSound pfx delimiter (page_size max_keys) page.objects page.common_prefixes
      split (next o p) e kept go_on = go_on o p kept (rw (e, list_loop) at h)
      split (done p) e kept go_on =
          subst
            (λ (q : Page). IsSound pfx delimiter (page_size max_keys) q.objects q.common_prefixes)
            (ok-injective (rw (e, list_loop) at h)) kept
      split (failed x) e kept go_on = absurd (err_not_ok (rw (e, list_loop) at h))

  -- A page of ListObjects holds at most as many objects and prefixes together as the page size; each
  -- object has the prefix that was asked for and no delimiter after it; no common prefix stands
  -- twice.
  pub list_objects-IsSound :
      (B : Bolt) (db : B.Db) (bucket marker : Bytes) (page : Page)
      → list_objects B C bucket pfx delimiter marker max_keys db ≡ ok page
      → IsSound pfx delimiter (page_size max_keys) page.objects page.common_prefixes
  unfolding list_objects
  list_objects-IsSound B db bucket marker page h =
      elim (Option-cases (B.bucket db (objects_of bucket))) [
        | inl e ↦ absurd (err_not_ok (rw (e, list_objects) at h))
        | inr (es, e) ↦
            list_loop-IsSound (start_at pfx marker es) [] [] page
              (record { bound = omega arith; listed = tt; distinct = tt }, page_size_pos max_keys)
              (rw (e, list_objects) at h)
      ]

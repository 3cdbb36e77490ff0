-- ===== src/Metadata/Objects/NewestLeft.antt =====
-- The newest of the versions that are left when one of a key is deleted, by the rows of the bucket.
use go_s.Prelude.{
  Bytes, Option, none, some, [], ◌∷◌, ◌≡◌, ◌≤◌, ap, ◌∙◌, true, false, if◌then◌else◌, All, bytes_eq,
  has_prefix, Bool-cases, inl, inr,
}
use go_s.Bolt.{Codec, Entries, lookup, remove, scan, IsSorted, lookup-remove, remove-IsSorted}
use go_s.Bolt.Scan.{lookup-scan, IsSorted-scan}
use go_s.Storage.{ObjectMeta}
use go_s.Metadata.Names.{version_key, version_prefix}
use go_s.Metadata.Objects.{newest}
use go_s.Metadata.Objects.Promotion.{IsNewest, newest-IsNewest}

-- A version of the key that is left when one of them is deleted, by its row.
abbrev pub IsVersionLeft : Bytes → Bytes → Entries → Bytes → Bytes → Type 0
IsVersionLeft key vid es k text =
    (lookup k es ≡ some text)
    × (has_prefix k (version_prefix key) ≡ true)
    × (bytes_eq k (version_key key vid) ≡ false)

All-lookup :
    (P : Bytes × Bytes → Type 0) (es : Entries) (k text : Bytes)
    → All P es
    → lookup k es ≡ some text
    → (i : Bytes) × P (i, text)
unfolding lookup
All-lookup P [] k text a h = cc
All-lookup P ((i, w) ∷ es) k text a h = elim (Bool-cases (bytes_eq k i)) [
  | inr e ↦ All-lookup P es k text a.1 (rw e at h)
  | inl e ↦ let same : w ≡ text = cc (rw e at h) in (i, rw⁻¹ same a.0)
]

module _ (C : Codec ObjectMeta) (key vid : Bytes) (es : Entries) where
  -- The newest version that is left: one of them, such that none holds a later time of modification; or
  -- nothing, if no version is left that decodes.
  abbrev pub IsNewestLeft : Option ObjectMeta → Type 0
  IsNewestLeft none = (k text : Bytes) → IsVersionLeft key vid es k text → C.unmarshal text ≡ none
  IsNewestLeft (some m) =
      ((k : Bytes) × (text : Bytes) × IsVersionLeft key vid es k text × (C.unmarshal text ≡ some m))
      × ((k text : Bytes) (n : ObjectMeta)
          → IsVersionLeft key vid es k text
          → C.unmarshal text ≡ some n
          → n.last_modified ≤ m.last_modified)

  -- What the search of DeleteObject goes through.
  abbrev searched : Entries
  searched = scan (version_prefix key) (remove (version_key key vid) es)

  module _ (s : IsSorted es) where
    lookup-searched :
        (k : Bytes)
        → lookup k searched ≡ (
            if has_prefix k (version_prefix key)
            then if bytes_eq k (version_key key vid) then none else lookup k es
            else none)
    lookup-searched k =
        lookup-scan (version_prefix key) k (remove (version_key key vid) es)
          (remove-IsSorted (version_key key vid) es s)
        ∙ ap (λ o. if has_prefix k (version_prefix key) then o else none)
            (lookup-remove k (version_key key vid) es)

    in_search : (k text : Bytes) → IsVersionLeft key vid es k text → lookup k searched ≡ some text
    in_search k text (l, p, e) = lookup-searched k ∙ rw (p, e) l

    of_search : (k text : Bytes) → lookup k searched ≡ some text → IsVersionLeft key vid es k text
    of_search k text h =
        let f = lookup-searched k in
        elim (Bool-cases (has_prefix k (version_prefix key))) [
          | inr p ↦ cc (h, rw p at f)
          | inl p ↦ elim (Bool-cases (bytes_eq k (version_key key vid))) [
            | inl e ↦ cc (h, rw (p, e) at f)
            | inr e ↦ let g : lookup k searched ≡ lookup k es = rw (p, e) at f in (cc (g, h), p, e)
          ]
        ]

    IsNewestLeft-of : (best : Option ObjectMeta) → IsNewest C searched best → IsNewestLeft best
    IsNewestLeft-of none h = λ k text v.
        (All-lookup (λ e. C.unmarshal e.1 ≡ none) searched k text h (in_search k text v)).1
    IsNewestLeft-of (some m) ((k, text, l, u), h) = (
      (k, text, of_search k text l, u),
      λ k text n v d.
          (All-lookup
              (λ e. (n : ObjectMeta) → C.unmarshal e.1 ≡ some n → n.last_modified ≤ m.last_modified)
              searched k text h (in_search k text v)).1
            n d,
    )

    -- The search finds the newest version that is left.
    pub newest-IsNewestLeft : IsNewestLeft (newest C none searched)
    newest-IsNewestLeft = IsNewestLeft-of (newest C none searched) (
        newest-IsNewest C searched (
          IsSorted-scan (version_prefix key) (remove (version_key key vid) es)
            (remove-IsSorted (version_key key vid) es s)))

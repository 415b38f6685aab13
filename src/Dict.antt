-- ===== src/Dict.antt =====
-- Python's `dict` with text keys, in insertion order: an assignment to a key that is there keeps
-- its place, and a new key goes to the end.
use xupertrade.Prelude.{
  String, ◌≡◌, refl, sym, subst, false, inl, inr, Option, none, some, List, [], ◌∷◌, arith, ◌==◌,
  eq_iff, Bool-cases, if◌then◌else◌,
}
use xupertrade.Prelude.Int.{ℤ, pos, ◌+ℤ◌, int_laws}

abbrev pub Dict {ℓ} : Type ℓ → Type ℓ
Dict V = List (String × V)

module _ {ℓ} {V : Type ℓ} where
  -- d.get(k)
  abbrev pub lookup : String → Dict V → Option V
  lookup k [] = none
  lookup k ((j, v) ∷ d) = if j == k then some v else lookup k d

  -- d[k] = v
  abbrev pub insert : String → V → Dict V → Dict V
  insert k v [] = (k, v) ∷ []
  insert k v ((j, w) ∷ d) = if j == k then (j, v) ∷ d else (j, w) ∷ insert k v d

  -- del d[k]
  abbrev pub erase : String → Dict V → Dict V
  erase k [] = []
  erase k ((j, w) ∷ d) = if j == k then d else (j, w) ∷ erase k d

  -- list(d.values())
  abbrev pub values : Dict V → List V
  values [] = []
  values ((_, v) ∷ d) = v ∷ values d

  pub lookup-insert :
      (k j : String) (v : V) (d : Dict V)
      → lookup j (insert k v d) ≡ (if k == j then some v else lookup j d)
  lookup-insert k j v [] = refl
  lookup-insert k j v ((i, w) ∷ d) =
      ground (arith, eq_iff k j, eq_iff i k, eq_iff i j, lookup-insert k j v d)

  pub lookup-erase_ne :
      (k j : String) (d : Dict V) → k == j ≡ false → lookup j (erase k d) ≡ lookup j d
  lookup-erase_ne k j [] h = refl
  lookup-erase_ne k j ((i, w) ∷ d) h =
      ground (arith, eq_iff k j, eq_iff i k, eq_iff i j, lookup-erase_ne k j d h)

  -- The sum of a measure over the values.
  abbrev pub total : (V → ℤ) → Dict V → ℤ
  total f [] = pos 0
  total f ((_, v) ∷ d) = f v +ℤ total f d

  pub total-insert :
      (f : V → ℤ) (k : String) (v old : V) (d : Dict V)
      → lookup k d ≡ some old
      → total f (insert k v d) +ℤ f old ≡ total f d +ℤ f v
  total-insert f k v old [] e = cc
  total-insert f k v old ((j, w) ∷ d) e = grind (int_laws, total-insert f k v old d)

  pub total-insert_new :
      (f : V → ℤ) (k : String) (v : V) (d : Dict V)
      → lookup k d ≡ none
      → total f (insert k v d) ≡ total f d +ℤ f v
  total-insert_new f k v [] e = omega int_laws
  total-insert_new f k v ((j, w) ∷ d) e = grind (int_laws, total-insert_new f k v d)

  pub total-erase :
      (f : V → ℤ) (k : String) (old : V) (d : Dict V)
      → lookup k d ≡ some old
      → total f (erase k d) +ℤ f old ≡ total f d
  total-erase f k old [] e = cc
  total-erase f k old ((j, w) ∷ d) e = grind (int_laws, total-erase f k old d)

  -- Every key stands once, and every entry satisfies `P`.
  abbrev pub Entries : (String → V → Type ℓ) → Dict V → Type ℓ
  Entries P [] = Unit
  Entries P ((k, v) ∷ d) = P k v × (lookup k d ≡ none) × Entries P d

  module _ (P : String → V → Type ℓ) where
    pub Entries-lookup :
        (k : String) (v : V) (d : Dict V) → Entries P d → lookup k d ≡ some v → P k v
    Entries-lookup k v [] h e = cc
    Entries-lookup k v ((j, w) ∷ d) h e = ground (arith, eq_iff j k, h.0, Entries-lookup k v d h.2)

    pub Entries-insert :
        (k : String) (v : V) (d : Dict V) → Entries P d → P k v → Entries P (insert k v d)
    Entries-insert k v [] h p = (p, refl, tt)
    Entries-insert k v ((j, w) ∷ d) h p = elim (Bool-cases (j == k)) [
      | inl same ↦ rw same (subst (λ i. P i v) (sym ((eq_iff j k).0 same)) p, h.1, h.2)
      | inr other ↦ rw other (
        h.0,
        rw lookup-insert (ground (arith, eq_iff j k, eq_iff k j, h.1)),
        Entries-insert k v d h.2 p,
      )
    ]

    pub Entries-erase : (k : String) (d : Dict V) → Entries P d → Entries P (erase k d)
    Entries-erase k [] h = tt
    Entries-erase k ((j, w) ∷ d) h = elim (Bool-cases (j == k)) [
      | inl same ↦ rw same h.2
      | inr other ↦ rw other (
        h.0,
        rw (lookup-erase_ne k j d (ground (arith, eq_iff j k, eq_iff k j))) h.1,
        Entries-erase k d h.2,
      )
    ]

    pub lookup-erase_self : (k : String) (d : Dict V) → Entries P d → lookup k (erase k d) ≡ none
    lookup-erase_self k [] h = refl
    lookup-erase_self k ((j, w) ∷ d) h = ground (arith, eq_iff j k, lookup-erase_self k d h.2)

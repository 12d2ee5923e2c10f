-- ===== src/Vaddress/Nodes.antt =====
-- The nodes: none is lost, and there is one whenever there is a page.
use ukulele.Base.{
  ℕ, ◌+◌, ◌≡◌, ◌≢◌, refl, List, [], ◌∷◌, Option, none, some, arith, ltb, ◌==◌, length, Outcome,
  Returns, returns, Returns-bind, Returns-mono, Bool-cases, ap, inl, inr,
}
use ukulele.Vaddress.{
  regions_per_block, StorageBlock, Store, find_entry, new_page, from_block, take_node,
  find_free_node,
}

-- The nodes that the storage blocks have handed out: `regions` of `vaddress_print`.
unfoldable pub entry_total : List StorageBlock → ℕ
entry_total [] = 0
entry_total (b ∷ bs) = b.entries + entry_total bs

module _ {P : Type 0} where
  -- The page allocator has a page to give.
  unfoldable pub HasPage : (P → Outcome (P × ℕ)) → P → Type 0
  HasPage allocate_page pmm = Returns (λ out. out.1 ≢ 0) (allocate_page pmm)

  -- One node more is in use.
  pub record NodeTaken (st : Store P) (out : Store P × ℕ) : Type 0 where
    pub counted :
        entry_total out.0.storage + length st.unused
        ≡ entry_total st.storage + length out.0.unused + 1

-- The block search hands out one entry more, if it finds one.
Found : List StorageBlock → Option (List StorageBlock × ℕ) → Type 0
Found bs none = Unit
Found bs (some out) = entry_total out.0 ≡ entry_total bs + 1

Found-there :
    (b : StorageBlock) (bs : List StorageBlock) (r : Option (List StorageBlock × ℕ))
    → Found bs r
    → Found (b ∷ bs) (elim r [ none ↦ none | some (bs', node) ↦ some (b ∷ bs', node) ])
unfolding entry_total Found
Found-there b bs none h = tt
Found-there b bs (some (bs', node)) h = omega (arith, h)

find_entry-Found : (bs : List StorageBlock) → Found bs (find_entry bs)
unfolding find_entry entry_total Found
find_entry-Found [] = tt
find_entry-Found (b ∷ bs) = elim (Bool-cases (ltb b.entries regions_per_block)) [
  | inl room ↦ rw room (omega arith)
  | inr full ↦ rw full (Found-there b bs (find_entry bs) (find_entry-Found bs))
]

module _ {P : Type 0} (allocate_page : P → Outcome (P × ℕ)) (hhdm : ℕ) where
  new_page-Returns :
      (pmm : P)
      → HasPage allocate_page pmm
      → Returns (λ _. Unit {0}) (new_page allocate_page hhdm pmm)
  unfolding new_page HasPage
  new_page-Returns pmm h = Returns-bind _ h (λ out ne. elim (Bool-cases (out.1 == 0)) [
    | inl null ↦ ground (arith, ne)
    | inr ok' ↦ rw ok' (returns tt)
  ])

  search-NodeTaken :
      (st : Store P)
      → HasPage allocate_page st.pmm
      → (r : Option (List StorageBlock × ℕ)) → Found st.storage r
      → Returns
          (λ out.
            entry_total out.0.storage ≡ entry_total st.storage + 1 × (out.0.unused ≡ st.unused))
          (from_block allocate_page hhdm st r)
  unfolding from_block Found entry_total
  search-NodeTaken st h (some (blocks, node)) f = returns (f, refl)
  search-NodeTaken st h none f =
      Returns-bind _ (new_page-Returns st.pmm h) λ out _. returns (omega arith, refl)

  take_node-NodeTaken :
      (st : Store P)
      → HasPage allocate_page st.pmm
      → (u : List ℕ) → st.unused ≡ u
      → Returns (NodeTaken st) (take_node allocate_page hhdm st u)
  unfolding take_node
  take_node-NodeTaken st h (node ∷ rest) e =
      returns (record { counted = ground (arith, ap length e) })
  take_node-NodeTaken st h [] e =
      Returns-mono (search-NodeTaken st h _ (find_entry-Found st.storage))
        λ out f. record { counted = ground (arith, f, e) }

  -- With a page at hand a node is found.
  pub find_free_node-NodeTaken :
      (st : Store P)
      → HasPage allocate_page st.pmm
      → Returns (NodeTaken st) (find_free_node allocate_page hhdm st)
  unfolding find_free_node
  find_free_node-NodeTaken st h = take_node-NodeTaken st h st.unused refl

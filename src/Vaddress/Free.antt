-- ===== src/Vaddress/Free.antt =====
-- `vaddress_free`: what it leaves covered, and where it goes wrong.
use ukulele.Base.{
  ℕ, ◌+◌, ◌^◌, ◌≤◌, ◌<◌, ◌≡◌, refl, ap, subst, ◌∙◌, List, [], ◌∷◌, arith, ltb, leb, length, Bool,
  true, false, not, ◌&&◌, ◌||◌, All, Outcome, ok, Returns, returns, Returns-bind, Returns-mono,
  Bool-cases, inl, inr, add64,
}
use ukulele.Vaddress.{AddressRegion, Store, VaddressSpace, free_loop, free}
use ukulele.Vaddress.Ranges.{
  IsSorted, IsSorted-weaken, gap_end-between, covered-above, inside, covered,
}
use ukulele.Vaddress.Valid.{IsValid, SameSpace}
use ukulele.Vaddress.Nodes.{entry_total, HasPage, NodeTaken, find_free_node-NodeTaken}

-- No region begins in the range, its end included, and reaches behind it.
unfoldable pub Covers : ℕ → ℕ → AddressRegion → Type 0
Covers address address_end r = address ≤ r.begin → r.begin ≤ address_end → r.end ≤ address_end

distributes : (x y z : Bool) → ((x && z) || (y && z)) ≡ ((x || y) && z)
distributes true true true = refl
distributes true true false = refl
distributes true false true = refl
distributes true false false = refl
distributes false y z = refl

module _ {P : Type 0} (allocate_page : P → Outcome (P × ℕ)) (hhdm address address_end : ℕ) where
  -- What the loop does to the nodes and to the covered addresses.
  pub record Freed (lo hi : ℕ) (st : Store P) (rs : List AddressRegion)
      (out : Store P × List AddressRegion) : Type 0 where
    pub sorted : IsSorted lo out.1 hi
    pub covers : (a : ℕ) → covered out.1 a ≡ (covered rs a && not (inside address address_end a))
    pub counted :
        entry_total out.0.storage + length st.unused + length rs
        ≡ entry_total st.storage + length out.0.unused + length out.1

  -- Behind the range nothing is covered by it.
  beyond :
      (lo hi : ℕ) (rs : List AddressRegion)
      → IsSorted lo rs hi
      → address_end ≤ lo
      → (a : ℕ) → covered rs a ≡ (covered rs a && not (inside address address_end a))
  beyond lo hi [] s h a = refl
  beyond lo hi (r ∷ rs) s h a =
      ground (arith, beyond r.end hi rs s.2 (omega (arith, s.0, s.1)) a, s)

  stop :
      (lo hi : ℕ) (st : Store P) (rs : List AddressRegion)
      → IsSorted lo rs hi
      → address_end < lo
      → free_loop allocate_page hhdm address address_end st rs ≡ ok (st, rs)
  unfolding free_loop
  stop lo hi st [] s h = refl
  stop lo hi st (r ∷ rs) s h = let e : ltb address_end r.begin ≡ true = ground arith in rw e refl

  -- The branch "Shift block start" sets the end.
  pub free_loop-shift :
      (lo hi : ℕ) (st : Store P) (r : AddressRegion) (rs : List AddressRegion)
      → IsSorted lo (r ∷ rs) hi
      → address ≤ r.begin
      → r.begin ≤ address_end
      → address_end < r.end
      → free_loop allocate_page hhdm address address_end st (r ∷ rs)
        ≡ ok (st, record r { end = address_end } ∷ rs)
  unfolding free_loop
  free_loop-shift lo hi st r rs s l m n =
      let e1 : ltb address_end r.begin ≡ false = ground arith in
      let e2 : ltb r.end address ≡ false = ground arith in
      let e3 : leb address r.begin ≡ true = ground arith in
      let e4 : leb r.end address_end ≡ false = ground arith in
      rw (e1, e2, e3, e4, stop r.end hi st rs s.2 n) refl

  module _ (lo hi : ℕ) (st : Store P) (r : AddressRegion) (rs : List AddressRegion) where
    -- The region becomes a part of it, and the loop goes on.
    Freed-keep :
        (r' : AddressRegion) (out : Store P × List AddressRegion)
        → lo ≤ r'.begin
        → r'.begin ≤ r'.end
        → r'.end ≤ r.end
        → ((a : ℕ)
            → inside r'.begin r'.end a
              ≡ (inside r.begin r.end a && not (inside address address_end a)))
        → Freed r.end hi st rs out
        → Freed lo hi st (r ∷ rs) (out.0, r' ∷ out.1)
    Freed-keep r' out l m n part f = record {
      sorted = (l, m, IsSorted-weaken r.end r'.end hi out.1 n f.sorted);
      covers =
          λ a. simp (part a, f.covers a) (distributes (inside r.begin r.end a) (covered rs a) _);
      counted = omega (arith, f.counted);
    }

    -- The region is inside the range, and its node becomes free.
    Freed-drop :
        (out : Store P × List AddressRegion)
        → lo ≤ r.end
        → address ≤ r.begin
        → r.end ≤ address_end
        → Freed r.end hi (record st { unused = r.node ∷ st.unused }) rs out
        → Freed lo hi st (r ∷ rs) out
    Freed-drop out l m n f = record {
      sorted = IsSorted-weaken r.end lo hi out.1 l f.sorted;
      covers = λ a. ground (arith, f.covers a);
      counted = omega (arith, f.counted);
    }

    -- The range is within the region, which takes one node more.
    Freed-split :
        (out : Store P × ℕ)
        → lo ≤ r.begin
        → r.begin < address
        → address ≤ address_end
        → address_end < r.end
        → IsSorted r.end rs hi
        → NodeTaken st out
        → Freed lo hi st (r ∷ rs) (
          out.0,
          record r { end = address }
              ∷ record { node = out.1; begin = address_end; end = r.end }
              ∷ rs,
        )
    Freed-split out l m n o s t = record {
      sorted = (l, omega arith, (n, omega arith, s));
      covers = λ a. ground (arith, beyond r.end hi rs s (omega arith) a);
      counted = omega (arith, t.counted);
    }

  pub free_loop-Freed :
      address ≤ address_end
      → (lo hi : ℕ) (st : Store P) → HasPage allocate_page st.pmm
      → (rs : List AddressRegion) → IsSorted lo rs hi
      → All (Covers address address_end) rs
      → Returns (Freed lo hi st rs) (free_loop allocate_page hhdm address address_end st rs)
  unfolding free_loop Covers
  free_loop-Freed le lo hi st h [] s c =
      returns (record { sorted = s; covers = λ a. refl; counted = refl })
  free_loop-Freed le lo hi st h (r ∷ rs) s c =
      let next = free_loop-Freed le r.end hi st h rs s.2 c.1 in
      elim (Bool-cases (ltb address_end r.begin)) [
        | inl y ↦ rw y (
            returns (record {
              sorted = s;
              covers = beyond r.begin hi (r ∷ rs) (omega arith, s.1, s.2) (ground arith);
              counted = refl;
            }))
        | inr n ↦ rw n (elim (Bool-cases (ltb r.end address)) [
          | inl y ↦ rw y (
              Returns-bind _ next λ out f.
                returns
                  (Freed-keep lo hi st r rs r out s.0 s.1 (omega arith) (λ a. ground arith) f))
          | inr m ↦ rw m (elim (Bool-cases (leb address r.begin)) [
            | inl x ↦
                let e : leb r.end address_end ≡ true = ground (arith, c.0) in
                rw (x, e)
                  (Returns-mono
                    (free_loop-Freed le r.end hi (record st { unused = r.node ∷ st.unused }) h rs
                      s.2 c.1)
                    λ out f.
                      Freed-drop lo hi st r rs out (omega (arith, s.0, s.1)) (ground arith)
                        (ground arith) f)
            | inr x ↦ rw x (elim (Bool-cases (leb r.end address_end)) [
              | inl y ↦ rw y (
                  Returns-bind _ next λ out f. returns (
                    Freed-keep lo hi st r rs (record r { end = address }) out s.0 (ground arith)
                      (ground arith) (λ a. ground arith) f))
              | inr y ↦ rw y (
                  Returns-bind _ (find_free_node-NodeTaken allocate_page hhdm st h) λ out t.
                    rw (stop r.end hi out.0 rs s.2 (ground arith)) (
                      returns
                        (Freed-split lo hi st r rs out s.0 (ground arith) le (ground arith) s.2 t)))
            ])
          ])
        ])
      ]

module _ {P : Type 0} (allocate_page : P → Outcome (P × ℕ)) (hhdm address size : ℕ) where
  -- In a valid address space, with a page at hand, `vaddress_free` of a range that does not wrap
  -- returns and keeps the invariant: the addresses of the range are covered no more, and all
  -- others as before. The condition is that no region begins in the range, its end included, and
  -- reaches behind it.
  pub free_lem :
      (v : VaddressSpace P)
      → IsValid v
      → HasPage allocate_page v.store.pmm
      → address + size < 2 ^ 64
      → All (Covers address (address + size)) v.allocated
      → Returns
          (λ v'.
            IsValid v'
            × SameSpace v v'
            × ((a : ℕ)
                → covered v'.allocated a
                  ≡ (covered v.allocated a && not (inside address (address + size) a))))
          (free allocate_page hhdm v address size)
  unfolding free
  free_lem v i h w c =
      let e : add64 address size ≡ address + size = omega arith in
      rw e (
        Returns-bind _
          (free_loop-Freed allocate_page hhdm address (address + size) (omega arith) v.space_begin
            v.space_end v.store h v.allocated i.sorted c)
          λ out f. returns (
            record {
              sorted = f.sorted;
              bounded = i.bounded;
              counted = omega (arith, f.counted, i.counted);
            },
            record { same_begin = refl; same_end = refl },
            f.covers,
          ))

  -- Where the first region of a valid address space begins in the range, its end included, and
  -- reaches behind it, `vaddress_free` frees the wrong part: the addresses behind the range up to
  -- the region's end are covered no more, and those of the range are covered as before.
  pub free_wrong_part :
      (v : VaddressSpace P) (r : AddressRegion) (rs : List AddressRegion)
      → v.allocated ≡ r ∷ rs
      → IsValid v
      → address ≤ r.begin
      → r.begin ≤ address + size
      → address + size < r.end
      → Returns
          (λ v'.
            (a : ℕ)
            → covered v'.allocated a
              ≡ (covered (r ∷ rs) a && not (inside (address + size) r.end a)))
          (free allocate_page hhdm v address size)
  unfolding free
  free_wrong_part v r rs e i l m n =
      let s : IsSorted v.space_begin (r ∷ rs) v.space_end =
        subst (λ l. IsSorted v.space_begin l v.space_end) e i.sorted in
      let ends = gap_end-between r.end v.space_end rs s.2 in
      let w : add64 address size ≡ address + size = omega (arith, i.bounded, ends.0, ends.1) in
      let loop =
        ap (free_loop allocate_page hhdm address (address + size) v.store) e
        ∙ free_loop-shift allocate_page hhdm address (address + size) v.space_begin v.space_end
            v.store r rs s l m n in
      rw (w, loop)
        (returns λ a. ground (arith, covered-above r.end v.space_end a rs s.2, s.0, s.1, l, m, n))

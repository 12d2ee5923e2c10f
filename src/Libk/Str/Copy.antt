-- ===== src/Libk/Str/Copy.antt =====
-- `memcpy`, `memset` and `memmove`.
use ukulele.Base.{
  ℕ, zero, suc, ◌+◌, ◌-◌, ◌*◌, ◌%◌, ◌^◌, ◌≤◌, ◌<◌, ◌≡◌, ◌⊎◌, inl, inr, refl, ap, ◌∙◌, sym, arith,
  ◌&&◌, ltb, leb, ◌==◌, if◌then◌else◌, Bool, Bool-cases, false,
}
use ukulele.Libk.Str.{Memory, store, memcpy, memset, memmove}

-- The address lies in the `n` bytes from `d` on.
abbrev pub inside : ℕ → ℕ → ℕ → Bool
inside d n q = leb d q && ltb q (d + n)

-- Copying forward in steps of one byte is exact while the source is not overwritten before it is
-- read: the destination starts below the source, or ends above it.
pub memcpy_lem :
    (m : Memory) (d s count q : ℕ)
    → (d ≤ s) ⊎ (s + count ≤ d)
    → memcpy m d s count q ≡ (if inside d count q then m (s + (q - d)) else m q)
unfolding memcpy
memcpy_lem m d s zero q h = ground arith
memcpy_lem m d s (suc count) q h =
    memcpy_lem (store m d (m s)) (d + 1) (s + 1) count q (ground arith)
    ∙ elim (Bool-cases (ltb d q)) [
      | inl past ↦ let e : s + 1 + (q - (d + 1)) ≡ s + (q - d) = ground arith in rw e (ground arith)
      | inr not_past ↦ elim (Bool-cases (d == q)) [
        | inl here ↦
            let e : q ≡ d = ground arith in
            let e' : s + (d - d) ≡ s = omega arith in rw (e, e') (ground arith)
        | inr before ↦ ground arith
      ]
    ]

memcpy_outside :
    (m : Memory) (d s count q : ℕ) → inside d count q ≡ false → memcpy m d s count q ≡ m q
unfolding memcpy
memcpy_outside m d s zero q h = refl
memcpy_outside m d s (suc count) q h =
    memcpy_outside (store m d (m s)) (d + 1) (s + 1) count q (ground arith) ∙ ground arith

pub memset_lem :
    (m : Memory) (d ch count q : ℕ)
    → memset m d ch count q ≡ (if inside d count q then ch % 2 ^ 8 else m q)
unfolding memset
memset_lem m d ch zero q = ground arith
memset_lem m d ch (suc count) q =
    ground (arith, memset_lem (store m d (ch % 2 ^ 8)) (d + 1) ch count q)

-- The copy of the tail, which `memmove` makes first, where the halves do not overlap.
memmove_up :
    (m : Memory) (d s o v q : ℕ)
    → s + o ≡ d
    → v ≤ o
    → memcpy (memcpy m (d + o) (s + o) v) d s o q
      ≡ (if inside d (o + v) q then m (s + (q - d)) else m q)
memmove_up m d s o v q e h =
    memcpy_lem (memcpy m (d + o) (s + o) v) d s o q (inr (omega arith))
    ∙ elim (Bool-cases (ltb q (d + o))) [
      | inl low ↦ ground (
        arith,
        memcpy_lem m (d + o) (s + o) v (s + (q - d)) (inr (omega arith)),
        memcpy_lem m (d + o) (s + o) v q (inr (omega arith)),
      )
      | inr high ↦
          let r : s + o + (q - (d + o)) ≡ s + (q - d) = ground arith in
          ground (arith, memcpy_lem m (d + o) (s + o) v q (inr (omega arith)), ap m r)
    ]

-- `memmove` of a region that is moved down, or up by at least half its length, moves the bytes and
-- changes nothing else.
pub memmove_lem :
    (m : Memory) (d s count q : ℕ)
    → (d ≤ s) ⊎ (count ≤ 2 * (d - s))
    → memmove m d s count q ≡ (if inside d count q then m (s + (q - d)) else m q)
unfolding memmove
memmove_lem m d s count q h = elim (Bool-cases (leb d s)) [
  | inl down ↦ rw down (memcpy_lem m d s count q (inl (ground arith)))
  | inr up ↦ elim (Bool-cases (leb (s + count) d)) [
    | inl apart ↦ rw (up, apart) (memcpy_lem m d s count q (inr (ground arith)))
    | inr overlap ↦
        let e : d - s + (count - (d - s)) ≡ count = ground arith in
        rw (up, overlap)
          (memmove_up m d s (d - s) (count - (d - s)) q (ground arith) (ground arith)
            ∙ ap (λ n. if inside d n q then m (s + (q - d)) else m q) e)
  ]
]

memcpy-add :
    (m : Memory) (d s a b : ℕ) → memcpy m d s (a + b) ≡ memcpy (memcpy m d s a) (d + a) (s + a) b
unfolding memcpy
memcpy-add m d s zero b =
    let e : 0 + b ≡ b = omega arith in
    let ed : d + 0 ≡ d = omega arith in let es : s + 0 ≡ s = omega arith in rw (e, ed, es)
memcpy-add m d s (suc a) b =
    let e : suc a + b ≡ suc (a + b) = omega arith in
    let ed : d + suc a ≡ d + 1 + a = omega arith in
    let es : s + suc a ≡ s + 1 + a = omega arith in
    rw (e, ed, es) (memcpy-add (store m d (m s)) (d + 1) (s + 1) a b)

memcpy_first : (m : Memory) (d s b : ℕ) → 0 < b → memcpy m d s b d ≡ m s
unfolding memcpy
memcpy_first m d s zero h = absurd (omega arith)
memcpy_first m d s (suc b) h =
    memcpy_outside (store m d (m s)) (d + 1) (s + 1) b d (ground arith) ∙ ground arith

-- A copy up by `k` of more than `k` bytes reads what it has written.
memcpy_smears : (m : Memory) (s k v : ℕ) → 0 < k → k < v → memcpy m (s + k) s v (s + k + k) ≡ m s
memcpy_smears m s k v pos h =
    let e : k + (v - k) ≡ v = omega arith in
    let split = memcpy-add m (s + k) s k (v - k) in
    ap (λ n. memcpy m (s + k) s n (s + k + k)) (sym e)
    ∙ ap (λ (f : Memory). f (s + k + k)) split
    ∙ memcpy_first (memcpy m (s + k) s k) (s + k + k) (s + k) (v - k) (omega arith)
    ∙ memcpy_first m (s + k) s k pos

-- A region that is moved up by less than half its length, but moved, is corrupted: the byte at
-- three times the distance gets the byte at the distance in place of the one at twice it.
pub memmove_corrupts :
    (m : Memory) (s k count : ℕ)
    → 0 < k
    → 2 * k < count
    → memmove m (s + k) s count (s + k + k + k) ≡ m (s + k)
unfolding memmove
memmove_corrupts m s k count h h' =
    let e : s + k - s ≡ k = omega arith in
    let up : leb (s + k) s ≡ false = ground arith in
    let overlap : leb (s + count) (s + k) ≡ false = ground arith in
    rw (up, overlap, e)
      (memcpy_outside (memcpy m (s + k + k) (s + k) (count - k)) (s + k) s k (s + k + k + k)
          (ground arith)
        ∙ memcpy_smears m (s + k) k (count - k) h (omega arith))

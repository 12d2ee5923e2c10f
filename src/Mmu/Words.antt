-- ===== src/Mmu/Words.antt =====
-- The words of a page table: masks, and the parts of an entry.
use ukulele.Base.{
  ℕ, ◌+◌, ◌-◌, ◌*◌, ◌/◌, ◌%◌, ◌^◌, ◌≤◌, ◌<◌, ◌≡◌, refl, ap, ◌∙◌, bit_and, bit_or, arith, Bool, true,
  false, not, ◌==◌, if◌then◌else◌,
}
use ukulele.Base.Bits.{
  bit_and_mask, bit, bit-lt, bit-bit_and, bit-bit_or, eq_of_bits, bit-zero, bit_and_ones,
}
use ukulele.Base.Bits.Step.{bit_or_step}
use ukulele.Mmu.{reg_phys_address_mask, is_present, phys_address, MmuFlags, convert_flags}

pub round_down-mask :
    (k a : ℕ) → k ≤ 64 → a < 2 ^ 64 → bit_and a (2 ^ 64 - 2 ^ k) ≡ a / 2 ^ k * 2 ^ k
round_down-mask k a h l =
    let e : a % 2 ^ 64 ≡ a = omega arith in
    bit_and_mask k 64 a h ∙ ap (λ (t : ℕ). t / 2 ^ k * 2 ^ k) e

pub phys_address-eq : (e : ℕ) → phys_address e ≡ e % 2 ^ 52 / 4096 * 4096
phys_address-eq e = bit_and_mask 12 52 e (omega arith)

-- The address of an entry that is put together from a page address and flags.
pub phys_address-bit_or :
    (a f : ℕ) → a % 4096 ≡ 0 → a < 2 ^ 52 → phys_address f ≡ 0 → phys_address (bit_or a f) ≡ a
phys_address-bit_or a f al lt none_set =
    eq_of_bits 52 (phys_address (bit_or a f)) a (omega (arith, phys_address-eq (bit_or a f))) lt
      λ j h. omega (
        arith,
        bit-bit_and (bit_or a f) reg_phys_address_mask j,
        bit-bit_or a f j,
        bit-bit_and a reg_phys_address_mask j,
        bit-bit_and f reg_phys_address_mask j,
        ap (λ (t : ℕ). bit t j) none_set,
        ap (λ (t : ℕ). bit t j) whole,
        bit-zero j,
        bit-lt a j,
      )
  where
    whole : phys_address a ≡ a
    whole = omega (arith, phys_address-eq a)

pub is_present-eq : (e : ℕ) → is_present e ≡ (if e % 2 == 1 then true else false)
is_present-eq e = ground (arith, bit_and_ones 1 e)

pub is_present-bit_or : (a f : ℕ) → f % 2 ≡ 1 → is_present (bit_or a f) ≡ true
is_present-bit_or a f h = ground (arith, is_present-eq (bit_or a f), bit_or_step a f)

-- Flags of a present entry: the address part is clear.
pub record AreFlags (f : ℕ) : Type 0 where
  pub no_address : phys_address f ≡ 0
  pub set_present : f % 2 ≡ 1

phys_address-bit_or_zero :
    (f g : ℕ) → phys_address f ≡ 0 → phys_address g ≡ 0 → phys_address (bit_or f g) ≡ 0
phys_address-bit_or_zero f g hf hg =
    eq_of_bits 52 (phys_address (bit_or f g)) 0 (omega (arith, phys_address-eq (bit_or f g)))
      (omega arith)
      λ j h. omega (
        arith,
        bit-bit_and (bit_or f g) reg_phys_address_mask j,
        bit-bit_or f g j,
        bit-bit_and f reg_phys_address_mask j,
        bit-bit_and g reg_phys_address_mask j,
        ap (λ (t : ℕ). bit t j) hf,
        ap (λ (t : ℕ). bit t j) hg,
        bit-zero j,
      )

AreFlags-add :
    (b : Bool) (f g : ℕ) → AreFlags f → phys_address g ≡ 0 → AreFlags (if b then bit_or f g else f)
AreFlags-add true f g h e = record {
  no_address = phys_address-bit_or_zero f g h.no_address e;
  set_present = omega (arith, h.set_present, bit_or_step f g);
}
AreFlags-add false f g h e = h

-- Whatever the flags, the entry is present and they leave its address alone.
pub convert_flags-AreFlags : (flags : MmuFlags) → AreFlags (convert_flags flags)
unfolding convert_flags
convert_flags-AreFlags flags =
    AreFlags-add (not flags.exec) _ (2 ^ 63)
      (AreFlags-add flags.write _ 0x02
        (AreFlags-add flags.cache_write_through _ 0x08
          (AreFlags-add flags.user 0x01 0x04 (record { no_address = refl; set_present = refl })
            refl)
          refl)
        refl)
      refl

-- The flags of an entry are the sum of these: 1 (present), 2 if the page can be written, 4 if the
-- user may use it, 8 if the cache writes through, and 2 ^ 63 if it can not be executed.
pub convert_flags_lem :
    (flags : MmuFlags)
    → convert_flags flags
      ≡ 1
        + (if flags.write then 2 else 0)
        + (if flags.user then 4 else 0)
        + (if flags.cache_write_through then 8 else 0)
        + (if flags.exec then 0 else 2 ^ 63)
unfolding convert_flags
convert_flags_lem flags = ground arith

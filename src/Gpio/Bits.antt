-- ===== src/Gpio/Bits.antt =====
-- A uint32_t register of the device as its 32 bits: the operators of C on such words.
use cortex_m3_rtos.Prelude.{
  ℕ, zero, suc, ◌+◌, ◌-◌, ◌/◌, ◌%◌, ◌<◌, ◌≤◌, ◌≡◌, refl, Bool, false, not, ◌&&◌, ◌||◌, ltb, leb,
  ◌==◌, ◌∙◌, arith,
}

-- Bit 0 is the lowest.
abbrev pub Word : Type 0
Word = ℕ → Bool

abbrev pub bits_of_word : ℕ
bits_of_word = 32

-- The bits of a number.
unfoldable pub literal : ℕ → Word
literal n zero = n % 2 == 1
literal n (suc i) = literal (n / 2) i

abbrev pub word_and : Word → Word → Word
word_and a b i = a i && b i

abbrev pub word_or : Word → Word → Word
word_or a b i = a i || b i

abbrev pub word_not : Word → Word
word_not a i = not (a i)

-- The bits that are shifted out are lost.
abbrev pub shift_left : Word → ℕ → Word
shift_left a n i = (leb n i && ltb i bits_of_word) && a (i - n)

abbrev pub shift_right : Word → ℕ → Word
shift_right a n i = ltb (i + n) bits_of_word && a (i + n)

-- Whether one of the `n` bits from `i` on is set.
unfoldable pub any_from : ℕ → ℕ → Word → Bool
any_from zero i a = false
any_from (suc n) i a = a i || any_from n (suc i) a

-- A word as a condition.
unfoldable pub is_nonzero : Word → Bool
unfolding any_from
is_nonzero a = any_from bits_of_word 0 a

pub literal-zero : (i : ℕ) → literal 0 i ≡ false
unfolding literal
literal-zero zero = refl
literal-zero (suc i) = literal-zero i

pub literal_one : (i : ℕ) → literal 1 i ≡ (i == 0)
unfolding literal
literal_one zero = refl
literal_one (suc i) = ground (arith, literal-zero i)

pub literal_nibble : (i : ℕ) → literal 15 i ≡ ltb i 4
unfolding literal
literal_nibble zero = refl
literal_nibble (suc zero) = refl
literal_nibble (suc (suc zero)) = refl
literal_nibble (suc (suc (suc zero))) = refl
literal_nibble (suc (suc (suc (suc i)))) = ground (arith, literal-zero i)

-- A number of two bits has no others.
pub literal_pair : (m i : ℕ) → m < 4 → 2 ≤ i → literal m i ≡ false
unfolding literal
literal_pair m zero lt le = absurd (omega (arith, le))
literal_pair m (suc zero) lt le = absurd (omega (arith, le))
literal_pair m (suc (suc i)) lt le =
    let none_left : m / 2 / 2 ≡ 0 = omega (arith, lt) in rw none_left (literal-zero i)

-- A number of three bits has no others.
pub literal_triple : (m i : ℕ) → m < 8 → 3 ≤ i → literal m i ≡ false
unfolding literal
literal_triple m zero lt le = absurd (omega (arith, le))
literal_triple m (suc i) lt le = literal_pair (m / 2) i (omega (arith, lt)) (omega (arith, le))

any_from-none : (n i : ℕ) (a : Word) → ((k : ℕ) → i ≤ k → a k ≡ false) → any_from n i a ≡ false
unfolding any_from
any_from-none zero i a h = refl
any_from-none (suc n) i a h =
    ground (arith, h i, any_from-none n (suc i) a (λ k le. h k (omega arith)))

any_from-one :
    (n i : ℕ) (a : Word) → ((k : ℕ) → suc i ≤ k → a k ≡ false) → any_from (suc n) i a ≡ a i
unfolding any_from
any_from-one n i a h = ground (arith, any_from-none n (suc i) a h)

-- `( a >> n) & 0x1U` as a condition is bit n.
pub is_nonzero-bit :
    (a : Word) (n : ℕ)
    → n < bits_of_word
    → is_nonzero (word_and (shift_right a n) (literal 1)) ≡ a n
unfolding is_nonzero
is_nonzero-bit a n lt =
    let b : Word = word_and (shift_right a n) (literal 1) in
    let first : b 0 ≡ a n = ground (arith, literal_one 0, lt) in
    any_from-one 31 0 b (λ k le. ground (arith, literal_one k, le)) ∙ first

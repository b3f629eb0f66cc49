-- ===== src/Serial/Lines.antt =====
-- What examples/serial_interrupt/main.cpp needs of the static queues of the kernel: two queues of bytes.
use cortex_m3_rtos.Prelude.{
  ℕ, ◌+◌, ◌<◌, ◌≤◌, ◌≡◌, Bool, true, false, Option, none, some, List, [], ◌∷◌, ◌++◌, if◌then◌else◌,
  Outcome, done, arith,
}

abbrev pub length {ℓ} : {A : Type ℓ} → List A → ℕ
length [] = 0
length (x ∷ xs) = 1 + length xs

pub length-append {ℓ} : {A : Type ℓ} (xs ys : List A) → length (xs ++ ys) ≡ length xs + length ys
length-append [] ys = omega arith
length-append (x ∷ xs) ys = omega (arith, length-append xs ys)

-- "RX queue" and "TX queue".
pub data Line : Type 0 where
  rx tx : Line

abbrev pub same_line : Line → Line → Bool
same_line rx rx = true
same_line tx tx = true
same_line _ _ = false

-- static_queue::send of a byte and static_queue::receive, with the byte in the second argument of `receive`.
pub record Queues : Type 1 where
  pub State : Type 0
  pub send : State → Line → ℕ → Outcome (Bool × State)
  pub receive : State → Line → Outcome (Option ℕ × State)

-- Both queues are bounded, and first in, first out.
pub record IsFifo (Q : Queues) : Type 1 where
  pub Valid : Q.State → Type 0
  pub contents : Q.State → Line → List ℕ
  pub capacity : ℕ
  pub bounded : (s : Q.State) (l : Line) → Valid s → length (contents s l) ≤ capacity
  pub send_full :
      (s : Q.State) (l : Line) (x : ℕ)
      → Valid s
      → length (contents s l) ≡ capacity
      → (s' : Q.State) × (Q.send s l x ≡ done (false, s'))
        × Valid s'
        × ((m : Line) → contents s' m ≡ contents s m)
  pub send_room :
      (s : Q.State) (l : Line) (x : ℕ)
      → Valid s
      → x < 256
      → length (contents s l) < capacity
      → (s' : Q.State) × (Q.send s l x ≡ done (true, s'))
        × Valid s'
        × ((m : Line)
            → contents s' m ≡ (if same_line l m then contents s l ++ (x ∷ []) else contents s m))
  pub receive_empty :
      (s : Q.State) (l : Line)
      → Valid s
      → contents s l ≡ []
      → (s' : Q.State) × (Q.receive s l ≡ done (none, s'))
        × Valid s'
        × ((m : Line) → contents s' m ≡ contents s m)
  pub receive_some :
      (s : Q.State) (l : Line) (x : ℕ) (xs : List ℕ)
      → Valid s
      → contents s l ≡ x ∷ xs
      → (s' : Q.State) × (Q.receive s l ≡ done (some x, s'))
        × Valid s'
        × ((m : Line) → contents s' m ≡ (if same_line l m then xs else contents s m))

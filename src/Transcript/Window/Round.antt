-- ===== src/Transcript/Window/Round.antt =====
-- The rounds of the loop of parse_window, and that the fuel for them is enough.
use volute.Prelude.{
  ℕ, zero, suc, ◌+◌, ◌≤◌, ◌≡◌, refl, ap, ◌∙◌, sym, none, some, [], ◌∷◌, length, length-append,
  arith, Option-cases, inl, inr,
}
use volute.Bytes.{Bytes, split_once}
use volute.Transcript.{Parsed, ok, err, ◌>>=◌, ParsedLine}
use volute.Transcript.Window.{Window, push_parsed, parse_tail, rounds}
use volute.Transcript.Window.Newline.{newline, newline-some}

pub length-line :
    (text : Bytes) {found : Bytes × Bytes}
    → split_once newline text ≡ some found
    → length text ≡ length found.0 + (length found.1 + 1)
length-line text {found} h =
    ap length (newline-some text h).0 ∙ (length-append found.0 (10 ∷ found.1) ∙ omega arith)

pub bind_cong {ℓ κ} :
    {A : Type ℓ} {B : Type κ} (r : Parsed A) {f g : A → Parsed B}
    → ((a : A) → f a ≡ g a)
    → (r >>= f) ≡ (r >>= g)
bind_cong (ok a) h = h a
bind_cong (err e) h = refl

-- The same where only the value that there is counts.
pub bind_cong_at {ℓ κ} :
    {A : Type ℓ} {B : Type κ} (r : Parsed A) {f g : A → Parsed B}
    → ((a : A) → r ≡ ok a → f a ≡ g a)
    → (r >>= f) ≡ (r >>= g)
bind_cong_at (ok a) h = h a refl
bind_cong_at (err e) h = refl

-- Inversion of a successful `?`.
pub bind-eq-ok {ℓ κ} :
    {A : Type ℓ} {B : Type κ} (r : Parsed A) (f : A → Parsed B) {b : B}
    → (r >>= f) ≡ ok b
    → (a : A) × (r ≡ ok a) × (f a ≡ ok b)
bind-eq-ok (ok a) f h = (a, refl, h)
bind-eq-ok (err e) f h = cc

pub ok-eq {ℓ} : {A : Type ℓ} {a b : A} → ok a ≡ ok b → a ≡ b
ok-eq {a = a} e = ap (λ r. elim r [ ok x ↦ x | err x ↦ a ]) e

pub bind_assoc {ℓ κ μ} :
    {A : Type ℓ} {B : Type κ} {C : Type μ} (r : Parsed A) (f : A → Parsed B) (g : B → Parsed C)
    → (r >>= f >>= g) ≡ (r >>= (λ a. f a >>= g))
bind_assoc (ok a) f g = refl
bind_assoc (err e) f g = refl

module _ {V T : Type 0} (parse : Bytes → ℕ → Parsed (ParsedLine V T)) (base : ℕ) where
  -- At a line that a newline ends, and at one that none ends.
  pub rounds-some :
      (fuel x : ℕ) (xs : Bytes) (found : Bytes × Bytes) (cursor : ℕ) (w : Window V T)
      → split_once newline (x ∷ xs) ≡ some found
      → rounds parse base (suc fuel) (x ∷ xs) cursor w ≡ (
          parse found.0 (base + cursor) >>= (λ line.
            rounds parse base fuel found.1
              (cursor + (length found.0 + 1))
              (push_parsed w line (cursor + (length found.0 + 1)))))
  unfolding rounds
  rounds-some fuel x xs found cursor w e = rw (e, rounds) refl

  pub rounds-none :
      (fuel x : ℕ) (xs : Bytes) (cursor : ℕ) (w : Window V T)
      → split_once newline (x ∷ xs) ≡ none
      → rounds parse base (suc fuel) (x ∷ xs) cursor w
        ≡ parse_tail w (parse (x ∷ xs) (base + cursor)) (cursor + length (x ∷ xs))
  unfolding rounds parse_tail
  rounds-none fuel x xs cursor w e = rw (e, rounds) refl

  -- Any fuel that the bytes do not exceed gives the same.
  pub rounds-fuel :
      (fuel other : ℕ) (rest : Bytes) (cursor : ℕ) (w : Window V T)
      → length rest ≤ fuel
      → length rest ≤ other
      → rounds parse base fuel rest cursor w ≡ rounds parse base other rest cursor w
  unfolding rounds
  rounds-fuel zero zero [] cursor w h k = refl
  rounds-fuel zero (suc other) [] cursor w h k = refl
  rounds-fuel (suc fuel) zero [] cursor w h k = refl
  rounds-fuel (suc fuel) (suc other) [] cursor w h k = refl
  rounds-fuel zero other (x ∷ xs) cursor w h k = absurd (omega arith)
  rounds-fuel (suc fuel) zero (x ∷ xs) cursor w h k = absurd (omega arith)
  rounds-fuel (suc fuel) (suc other) (x ∷ xs) cursor w h k =
      elim (Option-cases (split_once newline (x ∷ xs))) [
        | inl missing ↦
            rounds-none fuel x xs cursor w missing ∙ sym (rounds-none other x xs cursor w missing)
        | inr (found, e) ↦
            let m = cursor + (length found.0 + 1) in
            let short = length-line (x ∷ xs) e in
            rounds-some fuel x xs found cursor w e
            ∙ (bind_cong (parse found.0 (base + cursor)) (λ line.
                  rounds-fuel fuel other found.1 m (push_parsed w line m) (omega arith)
                    (omega arith))
                ∙ sym (rounds-some other x xs found cursor w e))
      ]

  pub rounds-empty : (fuel cursor : ℕ) (w : Window V T) → rounds parse base fuel [] cursor w ≡ ok w
  unfolding rounds
  rounds-empty zero cursor w = refl
  rounds-empty (suc fuel) cursor w = refl

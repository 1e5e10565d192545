-- ===== src/Backtest/Lease/Rows.antt =====
-- How statements about the rows of a table go through `UPDATE … WHERE`, and the primary key.
use mathlib.Core.List.{Memᴰ}
use goodmoneying.Prelude.{
  ◌≡◌, sym, ap, ◌∙◌, ◌≢◌, Bool, List, [], ◌∷◌, All, All-imp, All-mem, if◌then◌else◌,
}
use goodmoneying.Backtest.Lease.{Run, update_where}

-- A relation between the rows of a table before and after a statement.
abbrev pub Rowwise : (Run → Run → Type 0) → List Run → List Run → Type 0
Rowwise R [] [] = Unit
Rowwise R (x ∷ xs) (y ∷ ys) = R x y × Rowwise R xs ys
Rowwise R _ _ = ⊥

pub Rowwise-refl : (R : Run → Run → Type 0) (xs : List Run) → ((r : Run) → R r r) → Rowwise R xs xs
Rowwise-refl R [] f = tt
Rowwise-refl R (x ∷ xs) f = (f x, Rowwise-refl R xs f)

pub Rowwise-trans :
    (R : Run → Run → Type 0)
    → ((a b c : Run) → R a b → R b c → R a c)
    → (xs ys zs : List Run) → Rowwise R xs ys
    → Rowwise R ys zs
    → Rowwise R xs zs
Rowwise-trans R f [] [] [] h k = tt
Rowwise-trans R f [] [] (z ∷ zs) h k = k
Rowwise-trans R f [] (y ∷ ys) zs h k = absurd h
Rowwise-trans R f (x ∷ xs) [] zs h k = absurd h
Rowwise-trans R f (x ∷ xs) (y ∷ ys) [] h k = k
Rowwise-trans R f (x ∷ xs) (y ∷ ys) (z ∷ zs) h k =
    (f x y z h.0 k.0, Rowwise-trans R f xs ys zs h.1 k.1)

pub All-Rowwise :
    (R : Run → Run → Type 0) (P Q : Run → Type 0)
    → ((a b : Run) → R a b → P a → Q b)
    → (xs ys : List Run) → Rowwise R xs ys
    → All P xs
    → All Q ys
All-Rowwise R P Q f [] [] h k = tt
All-Rowwise R P Q f [] (y ∷ ys) h k = absurd h
All-Rowwise R P Q f (x ∷ xs) [] h k = tt
All-Rowwise R P Q f (x ∷ xs) (y ∷ ys) h k = (f x y h.0 k.0, All-Rowwise R P Q f xs ys h.1 k.1)

module _ (p : Run → Bool) (f : Run → Run) where
  pub Rowwise-update :
      (R : Run → Run → Type 0) (rows : List Run)
      → All (λ r. R r (if p r then f r else r)) rows
      → Rowwise R rows (update_where p f rows)
  Rowwise-update R [] h = tt
  Rowwise-update R (r ∷ rows) h = (h.0, Rowwise-update R rows h.1)

  pub All-update :
      (P : Run → Type 0) (rows : List Run)
      → All (λ r. P (if p r then f r else r)) rows
      → All P (update_where p f rows)
  All-update P [] h = tt
  All-update P (r ∷ rows) h = (h.0, All-update P rows h.1)

  pub mem-update :
      {x : Run} (rows : List Run)
      → Memᴰ x rows
      → Memᴰ (if p x then f x else x) (update_where p f rows)
  mem-update [] m = elim m [ ]
  mem-update (r ∷ rows) (Memᴰ.head e) = Memᴰ.head (ap (λ (t : Run). if p t then f t else t) e)
  mem-update (r ∷ rows) (Memᴰ.tail m) = Memᴰ.tail (mem-update rows m)

-- The primary key: no two rows have the same id.
abbrev pub IsKeyed : List Run → Type 0
IsKeyed [] = Unit
IsKeyed (r ∷ rows) = All (λ s. s.id ≢ r.id) rows × IsKeyed rows

-- A row of a keyed table is the only one with its id.
pub IsKeyed-unique :
    (table : List Run) {run : Run}
    → IsKeyed table
    → Memᴰ run table
    → All (λ r. r.id ≡ run.id → r ≡ run) table
IsKeyed-unique [] k m = tt
IsKeyed-unique (x ∷ xs) {run} k (Memᴰ.head e) =
    ((λ _. sym e), All-imp _ _ xs (λ s ne same. absurd (ne (same ∙ ap (λ (t : Run). t.id) e))) k.0)
IsKeyed-unique (x ∷ xs) {run} k (Memᴰ.tail m) =
    ((λ same. absurd (All-mem _ xs k.0 m (sym same))), IsKeyed-unique xs k.1 m)

pub IsKeyed-Rowwise :
    (xs ys : List Run) → Rowwise (λ a b. b.id ≡ a.id) xs ys → IsKeyed xs → IsKeyed ys
IsKeyed-Rowwise [] [] h k = tt
IsKeyed-Rowwise [] (y ∷ ys) h k = absurd h
IsKeyed-Rowwise (x ∷ xs) [] h k = tt
IsKeyed-Rowwise (x ∷ xs) (y ∷ ys) h k = (
  All-Rowwise _ _ _ (λ a b e ne same. ne (sym e ∙ same ∙ h.0)) xs ys h.1 k.0,
  IsKeyed-Rowwise xs ys h.1 k.1,
)

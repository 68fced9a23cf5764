-- ===== src/Protocol/Session/Sets.antt =====
-- session.rs: the laws of the sets of sequence numbers and of their ranges.
use fieldnotes.Prelude.{
  ℕ, ◌≤◌, ◌<◌, ◌≡◌, refl, true, false, ◌&&◌, none, some, List, [], ◌∷◌, ◌++◌, arith, leb, ◌==◌,
  if◌then◌else◌, All,
}
use fieldnotes.Protocol.Session.State.{insert, contains, range}
use fieldnotes.Protocol.Session.Commit.{find_undurable}

pub contains-insert :
    (p q : ℕ) (xs : List ℕ) → contains (insert p xs) q ≡ (if p == q then true else contains xs q)
unfolding contains insert
contains-insert p q [] = refl
contains-insert p q (x ∷ xs) = ground (arith, contains-insert p q xs)

abbrev pub Under : ℕ → List ℕ → Type 0
Under n = All (λ q. q < n)

pub Under-mono : (m n : ℕ) (xs : List ℕ) → m ≤ n → Under m xs → Under n xs
Under-mono m n [] h u = tt
Under-mono m n (x ∷ xs) h u = (omega arith, Under-mono m n xs h u.1)

pub Under-contains : (n q : ℕ) (xs : List ℕ) → Under n xs → contains xs q ≡ true → q < n
unfolding contains
Under-contains n q [] u h = ground arith
Under-contains n q (x ∷ xs) u h = ground (arith, Under-contains n q xs u.1)

-- A number above all members goes to the end.
pub insert_above : (q : ℕ) (xs : List ℕ) → Under q xs → insert q xs ≡ xs ++ (q ∷ [])
unfolding insert
insert_above q [] u = refl
insert_above q (x ∷ xs) u = ground (arith, insert_above q xs u.1)

pub Under-append : (n q : ℕ) (xs : List ℕ) → Under n xs → q < n → Under n (xs ++ (q ∷ []))
Under-append n q [] u h = (h, tt)
Under-append n q (x ∷ xs) u h = (u.0, Under-append n q xs u.1 h)

pub contains-range :
    (lo hi q : ℕ) (xs : List ℕ)
    → contains (range lo hi xs) q ≡ (leb lo q && leb q hi && contains xs q)
unfolding contains range
contains-range lo hi q [] = ground arith
contains-range lo hi q (x ∷ xs) = ground (arith, contains-range lo hi q xs)

-- Where the search finds nothing, every record in range is durable.
pub find_undurable-none :
    (durable xs : List ℕ) (q : ℕ)
    → find_undurable durable xs ≡ none
    → contains xs q ≡ true
    → contains durable q ≡ true
unfolding contains find_undurable
find_undurable-none d [] q h m = ground arith
find_undurable-none d (x ∷ xs) q h m = ground (arith, find_undurable-none d xs q)

-- What the search finds is in range and not durable.
pub find_undurable-some :
    (durable xs : List ℕ) (q : ℕ)
    → find_undurable durable xs ≡ some q
    → (contains xs q ≡ true) × (contains durable q ≡ false)
unfolding contains find_undurable
find_undurable-some d [] q h = ground arith
find_undurable-some d (x ∷ xs) q h = ground (arith, find_undurable-some d xs q)

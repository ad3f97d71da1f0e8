-- ===== src/Layout/Views.antt =====
-- The two views of a directory entry, as a structure and as 32 bytes, agree; what is stored at some
-- bytes is read back there, and not elsewhere.
use cpmtools.Base.{
  ℕ, zero, suc, ◌+◌, ◌≤◌, ◌<◌, ◌≡◌, ◌⊎◌, refl, sym, ap, ◌∙◌, List, [], ◌∷◌, ◌++◌, arith, length,
  get_or,
}
use cpmtools.Entry.{Entry}
use cpmtools.Layout.{to_bytes, of_bytes, byte_at, overwrite, with_bytes}

-- The arrays of an entry have their lengths.
pub record HasShape (e : Entry) : Type 0 where
  pub name_length : length e.name ≡ 8
  pub ext_length : length e.ext ≡ 3
  pub pointers_length : length e.pointers ≡ 16

abbrev tabulate : ℕ → (ℕ → ℕ) → List ℕ
tabulate zero f = []
tabulate (suc n) f = f 0 ∷ tabulate n (λ i. f (suc i))

tabulate_lem : (n : ℕ) (xs : List ℕ) → length xs ≡ n → xs ≡ tabulate n (λ i. get_or xs i 0)
tabulate_lem zero [] h = refl
tabulate_lem zero (x ∷ xs) h = absurd (omega arith)
tabulate_lem (suc n) [] h = absurd (omega arith)
tabulate_lem (suc n) (x ∷ xs) h = ap (λ ys. x ∷ ys) (tabulate_lem n xs (omega arith))

-- An entry with its arrays written out.
with_arrays : Entry → (ℕ → ℕ) → (ℕ → ℕ) → (ℕ → ℕ) → Entry
with_arrays e f g h = record e { name = tabulate 8 f; ext = tabulate 3 g; pointers = tabulate 16 h }

with_arrays_bytes :
    (e : Entry) (f g h : ℕ → ℕ) → of_bytes (to_bytes (with_arrays e f g h)) ≡ with_arrays e f g h
unfolding with_arrays
with_arrays_bytes e f g h = refl

with_arrays_self :
    (e : Entry)
    → HasShape e
    → e
      ≡ with_arrays e (λ i. get_or e.name i 0) (λ i. get_or e.ext i 0) (λ i. get_or e.pointers i 0)
unfolding with_arrays
with_arrays_self e v =
    ap (λ xs. record e { name = xs }) (tabulate_lem 8 e.name v.name_length)
    ∙ ap (λ xs. record e { name = tabulate 8 (λ i. get_or e.name i 0); ext = xs })
        (tabulate_lem 3 e.ext v.ext_length)
    ∙ ap
        (λ xs. record e {
          name = tabulate 8 (λ i. get_or e.name i 0);
          ext = tabulate 3 (λ i. get_or e.ext i 0);
          pointers = xs;
        })
        (tabulate_lem 16 e.pointers v.pointers_length)

pub of_bytes-to_bytes : (e : Entry) → HasShape e → of_bytes (to_bytes e) ≡ e
of_bytes-to_bytes e v =
    let same = with_arrays_self e v in
    ap (λ x. of_bytes (to_bytes x)) same
    ∙ with_arrays_bytes e (λ i. get_or e.name i 0) (λ i. get_or e.ext i 0)
        (λ i. get_or e.pointers i 0)
    ∙ sym same

pub to_bytes-of_bytes : (b : List ℕ) → length b ≡ 32 → to_bytes (of_bytes b) ≡ b
to_bytes-of_bytes b h =
    let same = tabulate_lem 32 b h in
    let out : to_bytes (of_bytes (tabulate 32 (λ i. get_or b i 0)))
        ≡ tabulate 32 (λ i. get_or b i 0) =
      refl in
    ap (λ x. to_bytes (of_bytes x)) same ∙ out ∙ sym same

length-append : (xs ys : List ℕ) → length (xs ++ ys) ≡ length xs + length ys
length-append [] ys = omega arith
length-append (x ∷ xs) ys = omega (arith, length-append xs ys)

pub length-to_bytes : (e : Entry) → HasShape e → length (to_bytes e) ≡ 32
length-to_bytes e v = omega (
  arith,
  v.name_length,
  v.ext_length,
  v.pointers_length,
  length-append e.name (e.ext ++ (e.extnol ∷ e.lrc ∷ e.extnoh ∷ e.blkcnt ∷ e.pointers)),
  length-append e.ext (e.extnol ∷ e.lrc ∷ e.extnoh ∷ e.blkcnt ∷ e.pointers),
)

length-overwrite : (k : ℕ) (new xs : List ℕ) → length (overwrite k new xs) ≡ length xs
length-overwrite zero [] xs = refl
length-overwrite zero (n ∷ new) [] = refl
length-overwrite zero (n ∷ new) (x ∷ xs) = ap suc (length-overwrite 0 new xs)
length-overwrite (suc k) new [] = refl
length-overwrite (suc k) new (x ∷ xs) = ap suc (length-overwrite k new xs)

get_or-overwrite_in :
    (k : ℕ) (new xs : List ℕ) (i j : ℕ)
    → k + length new ≤ length xs
    → i < length new
    → j ≡ k + i
    → get_or (overwrite k new xs) j 0 ≡ get_or new i 0
get_or-overwrite_in zero [] xs i j h l e = absurd (omega arith)
get_or-overwrite_in zero (n ∷ new) [] i j h l e = absurd (omega arith)
get_or-overwrite_in zero (n ∷ new) (x ∷ xs) zero zero h l e = refl
get_or-overwrite_in zero (n ∷ new) (x ∷ xs) zero (suc j) h l e = absurd (omega arith)
get_or-overwrite_in zero (n ∷ new) (x ∷ xs) (suc i) zero h l e = absurd (omega arith)
get_or-overwrite_in zero (n ∷ new) (x ∷ xs) (suc i) (suc j) h l e =
    get_or-overwrite_in 0 new xs i j (omega arith) (omega arith) (omega arith)
get_or-overwrite_in (suc k) new [] i j h l e = absurd (omega arith)
get_or-overwrite_in (suc k) new (x ∷ xs) i zero h l e = absurd (omega arith)
get_or-overwrite_in (suc k) new (x ∷ xs) i (suc j) h l e =
    get_or-overwrite_in k new xs i j (omega arith) l (omega arith)

get_or-overwrite_out :
    (k : ℕ) (new xs : List ℕ) (j : ℕ)
    → (j < k) ⊎ (k + length new ≤ j)
    → get_or (overwrite k new xs) j 0 ≡ get_or xs j 0
get_or-overwrite_out zero [] xs j h = refl
get_or-overwrite_out zero (n ∷ new) [] j h = refl
get_or-overwrite_out zero (n ∷ new) (x ∷ xs) zero h = absurd (omega arith)
get_or-overwrite_out zero (n ∷ new) (x ∷ xs) (suc j) h =
    get_or-overwrite_out 0 new xs j (omega arith)
get_or-overwrite_out (suc k) new [] j h = refl
get_or-overwrite_out (suc k) new (x ∷ xs) zero h = refl
get_or-overwrite_out (suc k) new (x ∷ xs) (suc j) h = get_or-overwrite_out k new xs j (omega arith)

to_bytes-with_bytes :
    (e : Entry) (k : ℕ) (new : List ℕ)
    → HasShape e
    → to_bytes (with_bytes e k new) ≡ overwrite k new (to_bytes e)
unfolding with_bytes
to_bytes-with_bytes e k new v =
    to_bytes-of_bytes (overwrite k new (to_bytes e))
      (length-overwrite k new (to_bytes e) ∙ length-to_bytes e v)

HasShape-of_bytes : (b : List ℕ) → length b ≡ 32 → HasShape (of_bytes b)
HasShape-of_bytes b h =
    let same = tabulate_lem 32 b h in
    record {
      name_length = ap (λ x. length (of_bytes x).name) same;
      ext_length = ap (λ x. length (of_bytes x).ext) same;
      pointers_length = ap (λ x. length (of_bytes x).pointers) same;
    }

pub HasShape-with_bytes :
    (e : Entry) (k : ℕ) (new : List ℕ) → HasShape e → HasShape (with_bytes e k new)
unfolding with_bytes
HasShape-with_bytes e k new v =
    HasShape-of_bytes (overwrite k new (to_bytes e))
      (length-overwrite k new (to_bytes e) ∙ length-to_bytes e v)

pub byte_at-with_bytes_in :
    (e : Entry) (k : ℕ) (new : List ℕ) (i j : ℕ)
    → HasShape e
    → k + length new ≤ 32
    → i < length new
    → j ≡ k + i
    → byte_at (with_bytes e k new) j ≡ get_or new i 0
byte_at-with_bytes_in e k new i j v h l same =
    ap (λ b. get_or b j 0) (to_bytes-with_bytes e k new v)
    ∙ get_or-overwrite_in k new (to_bytes e) i j (omega (arith, length-to_bytes e v)) l same

pub byte_at-with_bytes_out :
    (e : Entry) (k : ℕ) (new : List ℕ) (j : ℕ)
    → HasShape e
    → (j < k) ⊎ (k + length new ≤ j)
    → byte_at (with_bytes e k new) j ≡ byte_at e j
byte_at-with_bytes_out e k new j v h =
    ap (λ b. get_or b j 0) (to_bytes-with_bytes e k new v)
    ∙ get_or-overwrite_out k new (to_bytes e) j h

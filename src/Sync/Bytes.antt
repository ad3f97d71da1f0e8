-- ===== src/Sync/Bytes.antt =====
-- Directory entries laid one after the other, as the memory of `cpmReadSuper` of cpmfs.c has them.
use cpmtools.Base.{
  ℕ, zero, suc, ◌+◌, ◌-◌, ◌*◌, ◌≡◌, refl, ap, ◌∙◌, List, [], ◌∷◌, ◌++◌, arith, length, take, drop,
  All,
}
use cpmtools.Entry.{Entry}
use cpmtools.Layout.{to_bytes, of_bytes}
use cpmtools.Layout.Views.{HasShape, of_bytes-to_bytes, length-to_bytes}
use cpmtools.Sync.{dir_bytes, entries_of}

pub length-drop : (n : ℕ) (xs : List ℕ) → length (drop n xs) ≡ length xs - n
length-drop zero xs = omega arith
length-drop (suc n) [] = omega arith
length-drop (suc n) (x ∷ xs) = length-drop n xs ∙ omega arith

pub take-append : (n : ℕ) (xs ys : List ℕ) → length xs ≡ n → take n (xs ++ ys) ≡ xs
take-append zero [] ys h = refl
take-append zero (x ∷ xs) ys h = absurd (omega (arith, h))
take-append (suc n) [] ys h = absurd (omega (arith, h))
take-append (suc n) (x ∷ xs) ys h = ap (λ zs. x ∷ zs) (take-append n xs ys (omega (arith, h)))

pub drop-append : (n : ℕ) (xs ys : List ℕ) → length xs ≡ n → drop n (xs ++ ys) ≡ ys
drop-append zero [] ys h = refl
drop-append zero (x ∷ xs) ys h = absurd (omega (arith, h))
drop-append (suc n) [] ys h = absurd (omega (arith, h))
drop-append (suc n) (x ∷ xs) ys h = drop-append n xs ys (omega (arith, h))

pub append_assoc : (xs ys zs : List ℕ) → (xs ++ ys) ++ zs ≡ xs ++ (ys ++ zs)
append_assoc [] ys zs = refl
append_assoc (x ∷ xs) ys zs = ap (λ ws. x ∷ ws) (append_assoc xs ys zs)

pub length-append : (xs ys : List ℕ) → length (xs ++ ys) ≡ length xs + length ys
length-append [] ys = omega arith
length-append (x ∷ xs) ys = omega (arith, length-append xs ys)

pub take-drop : (n : ℕ) (xs : List ℕ) → take n xs ++ drop n xs ≡ xs
take-drop zero xs = refl
take-drop (suc n) [] = refl
take-drop (suc n) (x ∷ xs) = ap (λ zs. x ∷ zs) (take-drop n xs)

pub entries_of-dir_bytes :
    (es : List Entry) (rest : List ℕ)
    → All HasShape es
    → entries_of (length es) (dir_bytes es ++ rest) ≡ es
entries_of-dir_bytes [] rest h = refl
entries_of-dir_bytes (e ∷ es) rest (v, vs) =
    let size = length-to_bytes e v in
    let same = append_assoc (to_bytes e) (dir_bytes es) rest in
    let front = take-append 32 (to_bytes e) (dir_bytes es ++ rest) size in
    let behind = drop-append 32 (to_bytes e) (dir_bytes es ++ rest) size in
    ap (λ b. of_bytes (take 32 b) ∷ entries_of (length es) (drop 32 b)) same
    ∙ ap (λ b. of_bytes b ∷ entries_of (length es) (drop 32 (to_bytes e ++ (dir_bytes es ++ rest))))
        front
    ∙ ap (λ b. of_bytes (to_bytes e) ∷ entries_of (length es) b) behind
    ∙ ap (λ x. x ∷ entries_of (length es) (dir_bytes es ++ rest)) (of_bytes-to_bytes e v)
    ∙ ap (λ xs. e ∷ xs) (entries_of-dir_bytes es rest vs)

pub length-dir_bytes : (es : List Entry) → All HasShape es → length (dir_bytes es) ≡ length es * 32
length-dir_bytes [] h = omega arith
length-dir_bytes (e ∷ es) (v, vs) =
    length-append (to_bytes e) (dir_bytes es)
    ∙ omega (arith, length-to_bytes e v, length-dir_bytes es vs)

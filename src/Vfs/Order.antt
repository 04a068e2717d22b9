-- ===== src/Vfs/Order.antt =====
-- `ReadDir` reports for a directory whatever entry the iteration of the map meets first.
use mcpcheck.Prelude.{
  ◌≡◌, ◌≢◌, refl, sym, ap, ◌∙◌, inl, inr, true, false, [], ◌∷◌, ◌++◌, none, some, Text, ◌=ₜ◌,
  text_eq_iff, text_eq_refl, codes, sort, insert, member, text_lt, if◌then◌else◌, ok, arith,
}
use mcpcheck.Vfs.{MemEntry, child_of, add_child, children_from, list_dir, list_error, read_dir}
use mcpcheck.Vfs.Paths.{relative_child}
use mcpcheck.Vfs.Listing.{IsName, relative_child_iff}

child_of-some :
    (c p n : Text) → (p =ₜ c) ≡ false → relative_child p [] ≡ some n → child_of c [] p ≡ some n
unfolding child_of
child_of-some c p n d h = ap (λ b. if b then none else relative_child p []) d ∙ h

member_head : (n : Text) → member n (n ∷ []) ≡ true
unfolding member
member_head n = ground (arith, text_eq_refl n)

-- Two entries with the same child name: the first one is listed.
first_listed :
    (c p q n : Text) (e f : MemEntry)
    → child_of c [] p ≡ some n
    → child_of c [] q ≡ some n
    → children_from c [] [] ((p, e) ∷ (q, f) ∷ []) ≡ (n, e) ∷ []
unfolding children_from member
first_listed c p q n e f h k =
    ap (λ o. add_child o [] e (λ s. children_from c [] s ((q, f) ∷ []))) h
    ∙ ap (λ o. (n, e) ∷ add_child o (n ∷ []) f (λ s. children_from c [] s [])) k
    ∙ ap (λ b. (n, e) ∷ (if b then [] else (n, f) ∷ [])) (member_head n)

sort_one : (x : Text × MemEntry) → sort (λ a b. text_lt (a.0) (b.0)) (x ∷ []) ≡ x ∷ []
unfolding sort insert
sort_one x = refl

module _ (clean : Text → Text) (path : Text) (root : codes "." ≡ clean path) where
  listed_first :
      (p q n : Text) (e f : MemEntry)
      → child_of (codes ".") [] p ≡ some n
      → child_of (codes ".") [] q ≡ some n
      → read_dir clean path ((p, e) ∷ (q, f) ∷ []) ≡ ok ((n, e) ∷ [])
  unfolding read_dir ◌=ₜ◌
  listed_first p q n e f h k =
      ap (λ c. list_dir clean (list_error path c ((p, e) ∷ (q, f) ∷ [])) c ((p, e) ∷ (q, f) ∷ []))
        (sym root)
      ∙ ap (λ z. ok (sort (λ a b. text_lt (a.0) (b.0)) z)) (first_listed (codes ".") p q n e f h k)
      ∙ ap ok (sort_one (n, e))

  -- With a directory and a file in it, `ReadDir` of "." lists the directory's name once. What it gives with
  -- that name, and so what `IsDir` answers, is the file's entry in the one order of iteration and
  -- the directory's in the other.
  pub read_dir-order :
      (n x : Text) (inner outer : MemEntry)
      → IsName n
      → n ≢ []
      → n ≢ codes "."
      → (n ++ (b'/' ∷ x)) ≢ codes "."
      → (read_dir clean path ((n ++ (b'/' ∷ x), inner) ∷ (n, outer) ∷ []) ≡ ok ((n, inner) ∷ []))
        × (read_dir clean path ((n, outer) ∷ (n ++ (b'/' ∷ x), inner) ∷ []) ≡ ok ((n, outer) ∷ []))
  read_dir-order n x inner outer h d a b =
      let below =
        child_of-some (codes ".") (n ++ (b'/' ∷ x)) n
          (ground (arith, text_eq_iff (n ++ (b'/' ∷ x)) (codes "."), b))
          ((relative_child_iff (n ++ (b'/' ∷ x)) [] n).1 (h, d, inr (x, refl))) in
      let self =
        child_of-some (codes ".") n n (ground (arith, text_eq_iff n (codes "."), a))
          ((relative_child_iff n [] n).1 (h, d, inl refl)) in
      (listed_first _ _ n inner outer below self, listed_first _ _ n outer inner self below)

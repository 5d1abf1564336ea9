-- ===== src/Prelude/Permutation.antt =====
-- Lists up to their order.
use mathlib.Core.Path.{◌≡◌, refl, sym, ap, ◌∙◌, subst}
use mathlib.Core.List.{List, [], ◌∷◌, ◌++◌, Permᴰ, append_assoc}
use mathlib.Core.List.Permᴰ
use kubepage_operator.Prelude.Lists.{concat_map}

module _ {A B : Type 0} (f : A → List B) where
  pub concat_map-append :
      (xs ys : List A) → concat_map f (xs ++ ys) ≡ concat_map f xs ++ concat_map f ys
  concat_map-append [] ys = refl
  concat_map-append (x ∷ xs) ys =
      ap (λ l. f x ++ l) (concat_map-append xs ys)
      ∙ sym (append_assoc (f x) (concat_map f xs) (concat_map f ys))

  swapped : (x y : A) (l : List B) → Permᴰ (f x ++ (f y ++ l)) (f y ++ (f x ++ l))
  swapped x y l =
      subst (λ r. Permᴰ (f x ++ (f y ++ l)) r) (append_assoc (f y) (f x) l)
        (subst (λ r. Permᴰ r (f y ++ f x ++ l)) (append_assoc (f x) (f y) l)
          (Permᴰ.append_right l (Permᴰ.append_comm (f x) (f y))))

  pub concat_map-Perm : {xs ys : List A} → Permᴰ xs ys → Permᴰ (concat_map f xs) (concat_map f ys)
  concat_map-Perm Permᴰ.nil = Permᴰ.nil
  concat_map-Perm (Permᴰ.cons {a = a} {l₁ = xs} {l₂ = ys} e p) =
      subst (λ c. Permᴰ (f a ++ concat_map f xs) (f c ++ concat_map f ys)) e
        (Permᴰ.append_left (f a) (concat_map-Perm p))
  concat_map-Perm (Permᴰ.swap {a = a} {b = b} {b' = b'} {l = l} e d) =
      let from = f a ++ (f b ++ concat_map f l) in
      subst (λ c. Permᴰ from (f c ++ (f b' ++ concat_map f l))) d
        (subst (λ c. Permᴰ from (f b ++ (f c ++ concat_map f l))) e (swapped a b (concat_map f l)))
  concat_map-Perm (Permᴰ.trans p q) = Permᴰ.trans (concat_map-Perm p) (concat_map-Perm q)

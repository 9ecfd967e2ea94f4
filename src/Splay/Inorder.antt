-- ===== src/Splay/Inorder.antt =====
-- The items of a tree, and of the spines of `splay`, from the least to the greatest.
use smlsharp_completions_gen.Base.{◌≡◌, refl, List, [], ◌∷◌, ◌++◌, append_assoc, append-nil}
use smlsharp_completions_gen.Splay.{Tree, leaf, node, Spine, fill_lesser, fill_greater, assemble}

pub ruleset list_laws = (append_assoc, append-nil)

module _ {ℓ} {A : Type ℓ} where
  abbrev pub inorder : Tree A → List A
  inorder leaf = []
  inorder (node l k r) = inorder l ++ k ∷ inorder r

  -- The items before `hole[LEFT]`, and those after `hole[RIGHT]`.
  abbrev pub before : Spine A → List A
  before [] = []
  before ((m, l) ∷ ls) = before ls ++ (inorder l ++ m ∷ [])

  abbrev pub after : Spine A → List A
  after [] = []
  after ((m, r) ∷ gs) = m ∷ (inorder r ++ after gs)

  pub inorder-fill_lesser :
      (ls : Spine A) (t : Tree A) → inorder (fill_lesser ls t) ≡ before ls ++ inorder t
  unfolding fill_lesser
  inorder-fill_lesser [] t = refl
  inorder-fill_lesser ((m, l) ∷ ls) t = simp (inorder-fill_lesser ls (node l m t), append_assoc)

  pub inorder-fill_greater :
      (gs : Spine A) (t : Tree A) → inorder (fill_greater gs t) ≡ inorder t ++ after gs
  unfolding fill_greater
  inorder-fill_greater [] t = simp append-nil
  inorder-fill_greater ((m, r) ∷ gs) t = simp (inorder-fill_greater gs (node t m r), append_assoc)

  pub inorder-assemble :
      (l : Tree A) (k : A) (r : Tree A) (ls gs : Spine A)
      → inorder (assemble (node l k r) ls gs)
        ≡ (before ls ++ inorder l) ++ k ∷ (inorder r ++ after gs)
  unfolding assemble
  inorder-assemble l k r ls gs = simp (inorder-fill_lesser, inorder-fill_greater)

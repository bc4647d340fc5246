-- ===== src/Policy/Choices.antt =====
-- A loop over channels or candidates that keeps some of them (internal/audit/router.go,
-- executeRoute).
use deepseek_moderation_api.Prelude.{
  ◌≡◌, refl, Bool, false, List, [], ◌∷◌, String, str_eq, arith, any, map, ap, ◌∙◌, All, Result, ok,
  >>=-eq-ok,
}
use mathlib.Core.Path.{subst}
use deepseek_moderation_api.Router.Limits.{has_id, DistinctIds}
use deepseek_moderation_api.Policy.Candidates.{
  Candidate, routed, Choice, passed_over, left_out, chosen, add_choice, choose_all,
}

-- No two elements have the same name.
module _ {A : Type 0} (name : A → String) where
  abbrev pub has_name : String → List A → Bool
  has_name id xs = any (λ x. str_eq (name x) id) xs

  abbrev pub Distinct : List A → Type 0
  Distinct [] = Unit
  Distinct (x ∷ xs) = (has_name (name x) xs ≡ false) × Distinct xs

abbrev pub id_of : Candidate → String
id_of c = c.channel.id

pub Distinct-map : (cs : List Candidate) → Distinct id_of cs → DistinctIds (map routed cs)
Distinct-map [] d = tt
Distinct-map (c ∷ cs) d = (has_id-map (id_of c) cs d.0, Distinct-map cs d.1)
  where
    has_id-map :
        (id : String) (cs : List Candidate)
        → has_name id_of id cs ≡ false
        → has_id id (map routed cs) ≡ false
    has_id-map id [] h = refl
    has_id-map id (c ∷ cs) h = ground (arith, has_id-map id cs)

-- A loop of the choice: what one round ensures of its candidate holds of all, and the names of its
-- elements stay distinct.
module _ {A : Type 0} (choice : A → Result Choice) where
  choose_all-step :
      (x : A) (xs : List A) (out : List Candidate × Bool)
      → choose_all choice (x ∷ xs) ≡ ok out
      → (c : Choice) × (rest : List Candidate × Bool) × (choice x ≡ ok c)
        × (choose_all choice xs ≡ ok rest)
        × (add_choice c rest ≡ out)
  unfolding choose_all
  choose_all-step x xs out e =
      let (c, first, e') = >>=-eq-ok (choice x) _ e in
      let (rest, later, e'') = >>=-eq-ok (choose_all choice xs) _ e' in (c, rest, first, later, cc)

  choose_all-nil : (out : List Candidate × Bool) → choose_all choice [] ≡ ok out → ([], false) ≡ out
  unfolding choose_all
  choose_all-nil out e = cc

  add_choice-All :
      (Q : Candidate → Type 0) (c : Choice) (rest : List Candidate × Bool)
      → ((k : Candidate) → c ≡ chosen k → Q k)
      → All Q rest.0
      → All Q (add_choice c rest).0
  add_choice-All Q passed_over rest q a = a
  add_choice-All Q left_out rest q a = a
  add_choice-All Q (chosen k) rest q a = (q k refl, a)

  pub choose_all-All :
      (P : A → Type 0) (Q : Candidate → Type 0)
      → ((x : A) (c : Candidate) → P x → choice x ≡ ok (chosen c) → Q c)
      → (xs : List A) (out : List Candidate × Bool) → All P xs
      → choose_all choice xs ≡ ok out
      → All Q out.0
  choose_all-All P Q keep [] out a e =
      subst (λ (o : List Candidate × Bool). All Q o.0) (choose_all-nil out e) tt
  choose_all-All P Q keep (x ∷ xs) out a e =
      let (c, rest, first, later, e') = choose_all-step x xs out e in
      subst (λ (o : List Candidate × Bool). All Q o.0) e'
        (add_choice-All Q c rest (λ k same. keep x k a.0 (first ∙ ap ok same))
          (choose_all-All P Q keep xs rest a.1 later))

  module _ (name : A → String)
      (same : (x : A) (c : Candidate) → choice x ≡ ok (chosen c) → id_of c ≡ name x) where
    add_choice-has_name :
        (id : String) (x : A) (c : Choice) (rest : List Candidate × Bool)
        → choice x ≡ ok c
        → str_eq (name x) id ≡ false
        → has_name id_of id rest.0 ≡ false
        → has_name id_of id (add_choice c rest).0 ≡ false
    add_choice-has_name id x passed_over rest e h n = n
    add_choice-has_name id x left_out rest e h n = n
    add_choice-has_name id x (chosen k) rest e h n = rw (same x k e, h) n

    choose_all-has_name :
        (id : String) (xs : List A) (out : List Candidate × Bool)
        → has_name name id xs ≡ false
        → choose_all choice xs ≡ ok out
        → has_name id_of id out.0 ≡ false
    choose_all-has_name id [] out h e =
        subst (λ (o : List Candidate × Bool). has_name id_of id o.0 ≡ false) (choose_all-nil out e)
          refl
    choose_all-has_name id (x ∷ xs) out h e =
        let (c, rest, first, later, e') = choose_all-step x xs out e in
        subst (λ (o : List Candidate × Bool). has_name id_of id o.0 ≡ false) e'
          (add_choice-has_name id x c rest first (ground arith)
            (choose_all-has_name id xs rest (ground arith) later))

    add_choice-Distinct :
        (x : A) (c : Choice) (rest : List Candidate × Bool)
        → choice x ≡ ok c
        → has_name id_of (name x) rest.0 ≡ false
        → Distinct id_of rest.0
        → Distinct id_of (add_choice c rest).0
    add_choice-Distinct x passed_over rest e n d = d
    add_choice-Distinct x left_out rest e n d = d
    add_choice-Distinct x (chosen k) rest e n d = (rw (same x k e) n, d)

    pub choose_all-Distinct :
        (xs : List A) (out : List Candidate × Bool)
        → Distinct name xs
        → choose_all choice xs ≡ ok out
        → Distinct id_of out.0
    choose_all-Distinct [] out d e =
        subst (λ (o : List Candidate × Bool). Distinct id_of o.0) (choose_all-nil out e) tt
    choose_all-Distinct (x ∷ xs) out d e =
        let (c, rest, first, later, e') = choose_all-step x xs out e in
        subst (λ (o : List Candidate × Bool). Distinct id_of o.0) e'
          (add_choice-Distinct x c rest first (choose_all-has_name (name x) xs rest d.0 later)
            (choose_all-Distinct xs rest d.1 later))

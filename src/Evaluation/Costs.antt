-- ===== src/Evaluation/Costs.antt =====
-- What the calls of a trial cost: internal/audit/evaluation_costs.go, keyword_ignore.go. Amounts are
-- numbers of pico-CNY; the code keeps them as texts that evaluationMoneyString prints.
use deepseek_moderation_api.Prelude.{
  ℕ, ◌+◌, Bool, ◌||◌, List, [], ◌∷◌, Option, none, some, ltb, ◌==◌, if◌then◌else◌, String, str_eq,
}

-- `evaluationCost`: the calls of one request.
pub record EvaluationCost : Type 0 where
  pub known : ℕ
  pub held : ℕ
  pub total : ℕ
  pub pending : ℕ
  pub estimated : ℕ

abbrev pub no_cost : EvaluationCost
no_cost = record { known = 0; held = 0; total = 0; pending = 0; estimated = 0 }

abbrev pub add_cost : EvaluationCost → EvaluationCost → EvaluationCost
add_cost a b = record {
  known = a.known + b.known;
  held = a.held + b.held;
  total = a.total + b.total;
  pending = a.pending + b.pending;
  estimated = a.estimated + b.estimated;
}

pub data CostViewStatus : Type 0 where
  calculated estimated pending zero_cost : CostViewStatus

-- `CostView`, without its notes; no amount while a call is pending.
pub record CostView : Type 0 where
  pub status : CostViewStatus
  pub amount : Option ℕ
  pub reserved : ℕ

-- `requestIDs`: trials that were stored before there were retries have one.
unfoldable pub request_ids : (ids : List String) → (id : String) → List String
request_ids (i ∷ is) id = i ∷ is
request_ids [] id = if str_eq id "" then [] else id ∷ []

unfoldable pub keyword_rule_cost : Option CostView → (ignored blocked : Bool) → Option CostView
keyword_rule_cost (some cost) ignored blocked = some cost
keyword_rule_cost none ignored blocked =
    if ignored || blocked
    then some (record { status = zero_cost; amount = some 0; reserved = 0 })
    else none

abbrev pub find_cost : Option EvaluationCost → EvaluationCost
find_cost none = no_cost
find_cost (some c) = c

-- The sum over the requests; one that has no row counts as nothing.
unfoldable pub add_costs :
    (String → Option EvaluationCost) → EvaluationCost → List String → EvaluationCost
add_costs costs acc [] = acc
add_costs costs acc (id ∷ ids) = add_costs costs (add_cost acc (find_cost (costs id))) ids

unfoldable pub view_of : EvaluationCost → Option CostView
view_of c =
    if c.total == 0
    then none
    else if ltb 0 c.pending
    then some (record { status = pending; amount = none; reserved = c.held })
    else some (record {
      status = if ltb 0 c.estimated then estimated else calculated;
      amount = some c.known;
      reserved = c.held;
    })

-- `applyCosts`: the known amount and the view.
unfoldable pub apply_costs :
    (String → Option EvaluationCost)
    → (ids : List String) → (ignored blocked : Bool) → ℕ × Option CostView
unfolding add_costs view_of keyword_rule_cost
apply_costs costs ids ignored blocked =
    let c = add_costs costs no_cost ids in (c.known, keyword_rule_cost (view_of c) ignored blocked)

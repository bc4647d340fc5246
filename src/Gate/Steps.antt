-- ===== src/Gate/Steps.antt =====
-- The calls at a gate and what each may do next (internal/audit/keyed_gate.go).
use deepseek_moderation_api.Prelude.{
  ℕ, ◌+◌, ◌≡◌, Bool, true, false, ◌&&◌, List, [], ◌∷◌, ◌++◌, ◌==◌, if◌then◌else◌, String, str_eq,
}
use deepseek_moderation_api.Gate.{KeyedGate, new_gate, refer, drop, set_taken}

pub data Stage : Type 0 where
  waiting holding leaving : Stage

-- A call of `acquire`, with the entry that its closures keep.
pub record GateCall : Type 0 where
  pub key : String
  pub entry : ℕ
  pub stage : Stage

pub record World : Type 0 where
  pub gate : KeyedGate
  pub calls : List GateCall

abbrev pub fresh_world : World
fresh_world = record { gate = new_gate; calls = [] }

abbrev pub after_refer : World → String → KeyedGate × ℕ → World
after_refer w key r = record {
  gate = r.0;
  calls = record { key = key; entry = r.1; stage = waiting } ∷ w.calls;
}

-- A waiting call takes the free semaphore or is cancelled; the holder frees it and drops its
-- reference in two steps, between which others run.
pub data Step : World → World → Type 0 where
  arrive : (w : World) (key : String) → Step w (after_refer w key (refer w.gate key))
  take :
      (g : KeyedGate) (xs ys : List GateCall) (key : String) (a : ℕ)
      → (g.heap a).taken ≡ false
      → Step
          (record { gate = g; calls = xs ++ record { key = key; entry = a; stage = waiting } ∷ ys })
          (record {
            gate = set_taken g a true;
            calls = xs ++ record { key = key; entry = a; stage = holding } ∷ ys;
          })
  cancel :
      (g : KeyedGate) (xs ys : List GateCall) (key : String) (a : ℕ)
      → Step
          (record { gate = g; calls = xs ++ record { key = key; entry = a; stage = waiting } ∷ ys })
          (record { gate = drop g key a; calls = xs ++ ys })
  free :
      (g : KeyedGate) (xs ys : List GateCall) (key : String) (a : ℕ)
      → Step
          (record { gate = g; calls = xs ++ record { key = key; entry = a; stage = holding } ∷ ys })
          (record {
            gate = set_taken g a false;
            calls = xs ++ record { key = key; entry = a; stage = leaving } ∷ ys;
          })
  leave :
      (g : KeyedGate) (xs ys : List GateCall) (key : String) (a : ℕ)
      → Step
          (record { gate = g; calls = xs ++ record { key = key; entry = a; stage = leaving } ∷ ys })
          (record { gate = drop g key a; calls = xs ++ ys })

pub data Reachable : World → Type 0 where
  start : Reachable fresh_world
  next : {w w' : World} → Reachable w → Step w w' → Reachable w'

abbrev pub is_holding : Stage → Bool
is_holding holding = true
is_holding _ = false

abbrev pub count : (GateCall → Bool) → List GateCall → ℕ
count p [] = 0
count p (c ∷ cs) = (if p c then 1 else 0) + count p cs

abbrev pub refs_to : ℕ → GateCall → Bool
refs_to a c = c.entry == a

abbrev pub holds : ℕ → GateCall → Bool
holds a c = c.entry == a && is_holding c.stage

-- The calls of a key, and those among them that hold it.
abbrev pub is_for : String → GateCall → Bool
is_for key c = str_eq key c.key

abbrev pub holds_key : String → GateCall → Bool
holds_key key c = is_for key c && is_holding c.stage

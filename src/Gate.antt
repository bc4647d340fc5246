-- ===== src/Gate.antt =====
-- One call at a time for each key: internal/audit/keyed_gate.go. The entries are a store of objects,
-- since a call keeps its entry while the map may forget it and make a new one for the same key.
pub mod Steps
pub mod Counts
pub mod Invariant
pub mod Drop
pub mod Refer
pub mod Exclusion
use deepseek_moderation_api.Prelude.{
  ℕ, ◌+◌, ◌-◌, Bool, true, false, Option, none, some, ◌==◌, if◌then◌else◌, String, str_eq,
}

-- `taken` is a full channel of capacity one.
pub record GateEntry : Type 0 where
  pub taken : Bool
  pub refs : ℕ

-- `next` is the address of the next object.
pub record KeyedGate : Type 0 where
  pub next : ℕ
  pub heap : ℕ → GateEntry
  pub entries : String → Option ℕ

abbrev pub new_gate : KeyedGate
new_gate = record { next = 0; heap = λ _. record { taken = false; refs = 0 }; entries = λ _. none }

abbrev pub set_entry : (ℕ → GateEntry) → ℕ → GateEntry → ℕ → GateEntry
set_entry heap a e j = if j == a then e else heap j

abbrev pub set_key : (String → Option ℕ) → String → Option ℕ → String → Option ℕ
set_key entries key o k = if str_eq key k then o else entries k

-- `e.refs++`.
abbrev pub add_ref : KeyedGate → ℕ → KeyedGate
add_ref g a = record g {
  heap = set_entry g.heap a (record (g.heap a) { refs = (g.heap a).refs + 1 });
}

abbrev pub create : KeyedGate → String → KeyedGate
create g key = record g {
  next = g.next + 1;
  heap = set_entry g.heap g.next (record { taken = false; refs = 0 });
  entries = set_key g.entries key (some g.next);
}

-- The first critical section of `acquire`: the gate with the entry's address.
abbrev pub refer_to : KeyedGate → String → Option ℕ → KeyedGate × ℕ
refer_to g key (some a) = (add_ref g a, a)
refer_to g key none = (add_ref (create g key) g.next, g.next)

unfoldable pub refer : KeyedGate → String → KeyedGate × ℕ
refer g key = refer_to g key (g.entries key)

unfoldable pub drop : KeyedGate → String → ℕ → KeyedGate
drop g key a =
    let refs = (g.heap a).refs - 1 in
    let heap = set_entry g.heap a (record (g.heap a) { refs = refs }) in
    record g { heap = heap; entries = if refs == 0 then set_key g.entries key none else g.entries }

unfoldable pub set_taken : KeyedGate → ℕ → Bool → KeyedGate
set_taken g a taken = record g { heap = set_entry g.heap a (record (g.heap a) { taken = taken }) }

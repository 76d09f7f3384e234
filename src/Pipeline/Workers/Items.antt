-- ===== src/Pipeline/Workers/Items.antt =====
-- client/datastor/pipeline/async_splitter.go: what is known of the items that a stage holds.
use stor.Base.{ℕ, ◌≡◌, Bool, Result, ok, err, All, All-Pick, All-weaken}
use stor.Pipeline.Types.{Error}
use stor.Pipeline.Workers.{Stage, Move, take_item, leave, succeed, fail, give_up, Send, send}

-- Of what has come in, and of what has been made of it.
pub record Holds {I O : Type 0} (P : ℕ × I → Type 0) (Q : ℕ × O → Type 0) (s : Stage I O)
    : Type 0 where
  pub pending_items : All P s.pending
  pub busy_items : All P s.busy
  pub made_items : All Q s.made

pub Holds-map :
    {I O : Type 0} {P P' : ℕ × I → Type 0} {Q Q' : ℕ × O → Type 0} (s : Stage I O)
    → ((x : ℕ × I) → P x → P' x)
    → ((y : ℕ × O) → Q y → Q' y)
    → Holds P Q s
    → Holds P' Q' s
Holds-map s f g h = record {
  pending_items = All-weaken s.pending f h.pending_items;
  busy_items = All-weaken s.busy f h.busy_items;
  made_items = All-weaken s.made g h.made_items;
}

module _ {I O W : Type 0} (work : I → W → Result Error O × W) (closed cancelled : Bool) where
  -- What every call keeps of the world, a step keeps.
  pub Move-keeps :
      (F : W → Type 0)
      → ((x : I) (r : Result Error O) (w w' : W) → work x w ≡ (r, w') → F w → F w')
      → (w w' : W) (s t : Stage I O) → Move work closed cancelled w s w' t
      → F w
      → F w'
  Move-keeps F keep w w' s t (take_item e c) f = f
  Move-keeps F keep w w' s t (leave e c p) f = f
  Move-keeps F keep w w' s t (succeed {x = x} {o = o} c e) f = keep x.1 (ok o) w w' e f
  Move-keeps F keep w w' s t (fail {x = x} {e = d} c e) f = keep x.1 (err d) w w' e f
  Move-keeps F keep w w' s t (give_up c p) f = f

  pub Move-Holds :
      (P : W → ℕ × I → Type 0) (Q : W → ℕ × O → Type 0)
      → ((x : ℕ × I) (o : O) (w w' : W) → P w x → work x.1 w ≡ (ok o, w') → Q w' (x.0, o))
      → ((x : I) (r : Result Error O) (w w' : W)
          → work x w ≡ (r, w')
          → ((z : ℕ × I) → P w z → P w' z) × ((z : ℕ × O) → Q w z → Q w' z))
      → (w w' : W) (s t : Stage I O) → Move work closed cancelled w s w' t
      → Holds (P w) (Q w) s
      → Holds (P w') (Q w') t
  Move-Holds P Q make keep w w' s t (take_item {x = x} {pending = pending} e c) h =
      let split = All-Pick (P w) x s.pending pending c h.pending_items in
      record {
        pending_items = split.1;
        busy_items = (split.0, h.busy_items);
        made_items = h.made_items;
      }
  Move-Holds P Q make keep w w' s t (leave e c p) h = record {
    pending_items = h.pending_items;
    busy_items = h.busy_items;
    made_items = h.made_items;
  }
  Move-Holds P Q make keep w w' s t (succeed {x = x} {busy = busy} {o = o} c e) h =
      let k = keep x.1 (ok o) w w' e in
      let split = All-Pick (P w) x s.busy busy c h.busy_items in
      record {
        pending_items = All-weaken s.pending k.0 h.pending_items;
        busy_items = All-weaken busy k.0 split.1;
        made_items = (make x o w w' split.0 e, All-weaken s.made k.1 h.made_items);
      }
  Move-Holds P Q make keep w w' s t (fail {x = x} {busy = busy} {e = d} c e) h =
      let k = keep x.1 (err d) w w' e in
      record {
        pending_items = All-weaken s.pending k.0 h.pending_items;
        busy_items = All-weaken busy k.0 (All-Pick (P w) x s.busy busy c h.busy_items).1;
        made_items = All-weaken s.made k.1 h.made_items;
      }
  Move-Holds P Q make keep w w' s t (give_up {y = y} {made = made} c p) h = record {
    pending_items = h.pending_items;
    busy_items = h.busy_items;
    made_items = (All-Pick (Q w) y s.made made p h.made_items).1;
  }

pub Send-Holds :
    {I O : Type 0} (P : ℕ × I → Type 0) (Q : ℕ × O → Type 0) (s t : Stage I O) (y : ℕ × O)
    → Send s y t
    → Holds P Q s
    → Q y × Holds P Q t
Send-Holds P Q s t y (send {made = made} c) h =
    let split = All-Pick Q y s.made made c h.made_items in
    (
      split.0,
      record { pending_items = h.pending_items; busy_items = h.busy_items; made_items = split.1 },
    )

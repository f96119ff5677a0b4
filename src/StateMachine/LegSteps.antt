-- ===== src/StateMachine/LegSteps.antt =====
-- What the handlers of executor/state_machine.py do to the one leg that an event names.
use polymarket_trade_executo.Common.{
  String, ◌≡◌, refl, ◌⊎◌, inl, ◌≢◌, true, false, not, ◌&&◌, Option, arith, ◌==◌, string_eq,
  option_eq,
}
use polymarket_trade_executo.Common.Int.{ℤ, pos, ◌≤ℤ◌, leb_ℤ, int_eq}
use polymarket_trade_executo.StateMachine.Types.{OrderState, LegExecution, Side, order_state_eq}
use polymarket_trade_executo.StateMachine.Events.{OrderIntent}
use polymarket_trade_executo.StateMachine.Tables.{order_allowed}
use polymarket_trade_executo.StateMachine.Handlers.{
  synthetic_unwind_leg, resubmitted, booked, fill_target,
}
use polymarket_trade_executo.StateMachine.Evolves.{LegEvolves, IsFreshLeg}

-- `u` has the books of `l`: only the state and the notes differ.
pub record SameBooks (l u : LegExecution) : Type 0 where
  pub same_id : u.leg_id ≡ l.leg_id
  pub same_unwind : u.is_unwind_leg ≡ l.is_unwind_leg
  pub same_intended : u.intended_qty ≡ l.intended_qty
  pub same_filled : u.filled_qty ≡ l.filled_qty

pub restated-LegEvolves :
    (l u : LegExecution)
    → SameBooks l u
    → (u.state ≡ l.state) ⊎ (order_allowed l.state u.state ≡ true)
    → u.state ≢ OrderState.filled
    → u.state ≢ OrderState.new
    → LegEvolves l u
restated-LegEvolves l u b step not_filled not_new = record {
  same_id = b.same_id;
  same_unwind = b.same_unwind;
  step = step;
  filled_grows = rw b.same_filled (omega arith);
  keeps_sound = λ h. record {
    positive = rw b.same_intended h.positive;
    nonneg = rw b.same_filled h.nonneg;
    no_overfill = rw (b.same_unwind, b.same_filled, b.same_intended) h.no_overfill;
    filled_in_full = λ e. absurd (not_filled e);
    new_unfilled = λ e. absurd (not_new e);
  };
}

pub annotated-LegEvolves : (l u : LegExecution) → SameBooks l u → u.state ≡ l.state → LegEvolves l u
annotated-LegEvolves l u b same = record {
  same_id = b.same_id;
  same_unwind = b.same_unwind;
  step = inl same;
  filled_grows = rw b.same_filled (omega arith);
  keeps_sound = λ h. record {
    positive = rw b.same_intended h.positive;
    nonneg = rw b.same_filled h.nonneg;
    no_overfill = rw (b.same_unwind, b.same_filled, b.same_intended) h.no_overfill;
    filled_in_full = rw (same, b.same_filled, b.same_intended) h.filled_in_full;
    new_unfilled = rw (same, b.same_filled) h.new_unfilled;
  };
}

-- A leg that an accepted unwind intent brings in is sound.
pub synthetic-IsFreshLeg :
    (e : OrderIntent) (side : Side) (market_id : String)
    → leb_ℤ e.qty (pos 0) ≡ false
    → IsFreshLeg (synthetic_unwind_leg e side market_id)
unfolding synthetic_unwind_leg
synthetic-IsFreshLeg e side market_id h = ground arith

pub resubmitted-LegEvolves :
    (l : LegExecution) (e : OrderIntent)
    → leb_ℤ e.qty (pos 0) ≡ false
    → (not l.is_unwind_leg && not (e.qty == l.intended_qty)) ≡ false
    → (OrderState.pending_ack ≡ l.state) ⊎ (order_allowed l.state OrderState.pending_ack ≡ true)
    → LegEvolves l (resubmitted l e)
unfolding resubmitted
resubmitted-LegEvolves l e positive matches step = record {
  same_id = refl;
  same_unwind = refl;
  step = step;
  filled_grows = omega arith;
  keeps_sound = λ h. record {
    positive = ground arith;
    nonneg = h.nonneg;
    no_overfill = ground arith;
    filled_in_full = λ s. cc;
    new_unfilled = λ s. cc;
  };
}

-- What the guards of `_on_fill` have checked of a cumulative quantity.
pub record IsBookable (l : LegExecution) (cumulative : ℤ) : Type 0 where
  pub grows : l.filled_qty ≤ℤ cumulative
  pub within : l.is_unwind_leg ≡ false → cumulative ≤ℤ l.intended_qty

-- A fill that leaves the state alone: the leg was closed before it was filled.
pub booked-LegEvolves :
    (l : LegExecution) (price cumulative average : ℤ)
    → IsBookable l cumulative
    → l.state ≢ OrderState.filled
    → l.state ≢ OrderState.new
    → LegEvolves l (booked l price cumulative average)
unfolding booked
booked-LegEvolves l price cumulative average b not_filled not_new = record {
  same_id = refl;
  same_unwind = refl;
  step = inl refl;
  filled_grows = b.grows;
  keeps_sound = λ h. record {
    positive = h.positive;
    nonneg = omega (arith, h.nonneg, b.grows);
    no_overfill = b.within;
    filled_in_full = λ e. absurd (not_filled e);
    new_unfilled = λ e. absurd (not_new e);
  };
}

-- A fill of a live leg takes it to FILLED exactly when the intended quantity is reached.
pub filled-LegEvolves :
    (l : LegExecution) (price cumulative average : ℤ) (closed_at : Option ℤ)
    → IsBookable l cumulative
    → (fill_target l cumulative ≡ l.state)
      ⊎ (order_allowed l.state (fill_target l cumulative) ≡ true)
    → LegEvolves l (record (booked l price cumulative average) {
      state = fill_target l cumulative;
      done_ts_ns = closed_at;
    })
unfolding booked fill_target
filled-LegEvolves l price cumulative average closed_at b step = record {
  same_id = refl;
  same_unwind = refl;
  step = step;
  filled_grows = b.grows;
  keeps_sound = λ h. record {
    positive = h.positive;
    nonneg = omega (arith, h.nonneg, b.grows);
    no_overfill = b.within;
    filled_in_full = λ e. ground arith;
    new_unfilled = λ e. ground arith;
  };
}

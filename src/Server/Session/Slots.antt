-- ===== src/Server/Session/Slots.antt =====
-- The transfer slots of a session: a transfer holds one while it lasts, and each is given back.
pub mod Opening
pub mod Session
use mathlib.Core.Option
use Prim.Native.Nat.{max}
use iot_ftp_upload_gateway.Base.{
  ℕ, ◌+◌, ◌-◌, ◌<◌, ◌≡◌, refl, sym, ap, ◌∙◌, Bool, true, false, Option, none, some, arith, Text,
  subst, if◌then◌else◌, Bool-cases, inl, inr,
}
use iot_ftp_upload_gateway.Io.{ErrorKind}
use iot_ftp_upload_gateway.Net.{Ipv4Addr}
use iot_ftp_upload_gateway.Backend.Rotator.{
  State, SlotState, Wait, permit, closed, elapsed, acquire_data_slot, report_connect_failure,
  drop_data_slot, is_source_fault, mark_unhealthy_at,
}
use iot_ftp_upload_gateway.Backend.Rotator.Slots.{slot_of, returned}
use iot_ftp_upload_gateway.Backend.Rotator.Places.{
  changed, or_full, after_wait, is_pair, acquire_data_slot-changed, drop_data_slot-changed,
}
use iot_ftp_upload_gateway.Run.{
  World, Run, Flow, go, stop, after, Env, ◌>>=◌, pure, scoped, guarded, unless_done,
}
use iot_ftp_upload_gateway.Run.Moves.{Order, Moves}
use iot_ftp_upload_gateway.Server.Session.Config.{SessionConfig}
use iot_ftp_upload_gateway.Server.Session.Connect.{with_rotator}
use iot_ftp_upload_gateway.Server.Session.Channel.{drop_slot, expected_ip}
use iot_ftp_upload_gateway.Server.Session.Effects.{Closed, OwnCommand}
use iot_ftp_upload_gateway.Server.Session.Effects.Channel.{IsWelcome}
use iot_ftp_upload_gateway.Server.Session.Effects.Upload.{Attempts}
use iot_ftp_upload_gateway.Server.Session.Effects.Loop.{IsClientLine}

abbrev pub slot_in : Text → Ipv4Addr → World → Option SlotState
slot_in backend source w = elim w.rotator [
  | none ↦ none
  | some state ↦ slot_of backend source state
]

-- The transfers that hold a permit of a slot.
abbrev pub held : Option SlotState → ℕ
held none = 0
held (some slot) = slot.capacity - slot.available_permits

abbrev pub in_flight : Text → Ipv4Addr → World → ℕ
in_flight backend source w = held (slot_in backend source w)

abbrev pub HasPermit : Option SlotState → Type 0
HasPermit none = Unit
HasPermit (some slot) = 0 < slot.available_permits

-- A slot whose transfers have all ended.
abbrev pub Settled : Option SlotState → Option SlotState → Type 0
Settled o p = HasPermit o → HasPermit p × (held p ≡ held o)

abbrev pub settled_same : (o : Option SlotState) → Settled o o
settled_same o h = (h, refl)

settled_both : (o p q : Option SlotState) → Settled o p → Settled p q → Settled o q
settled_both o p q h k a = let (b, e) = h a in let (c, f) = k b in (c, f ∙ e)

-- A claim that was granted, and then the end of the transfer; and a claim that was not.
pub granted-Settled :
    (capacity : ℕ) (c : Bool) (o : Option SlotState)
    → 0 < capacity
    → Settled o (changed (Option.map returned) c (changed (after_wait capacity permit) c o))
granted-Settled capacity false o h = settled_same o
granted-Settled capacity true none h = λ _. (omega arith, omega (arith, h))
granted-Settled capacity true (some slot) h = λ k. (omega arith, omega (arith, k))

pub refused-Settled :
    (capacity : ℕ) (c : Bool) (o : Option SlotState)
    → 0 < capacity
    → Settled o (changed (after_wait capacity closed) c o)
      × Settled o (changed (after_wait capacity elapsed) c o)
refused-Settled capacity false o h = (settled_same o, settled_same o)
refused-Settled capacity true none h = (λ _. (h, omega arith), λ _. (h, omega arith))
refused-Settled capacity true (some slot) h = (λ k. (k, refl), λ k. (k, refl))

pub unchanged_none : (c : Bool) → none ≡ changed (Option.map returned) c none
unchanged_none true = refl
unchanged_none false = refl

module _ (cfg : SessionConfig) (backend : Text) (source : Ipv4Addr) where
  pub place : World → Option SlotState
  place w = slot_in backend source w

  -- What the drop of a channel's slot leaves of the slot of the pair.
  pub put : Option Ipv4Addr → Option SlotState → Option SlotState
  put none o = o
  put (some local) o =
      changed (Option.map returned) (is_pair cfg.backend_key local backend source) o

  pub Still : World → World → Type 0
  Still u v = place v ≡ place u

  pub Done : World → World → Type 0
  Done u v = Settled (place u) (place v)

  -- The transfer has begun: it will be settled by the drop.
  pub Holds : Option Ipv4Addr → World → World → Type 0
  Holds local u v = Settled (place u) (put local (place v))

  place-with_rotator :
      (local : Ipv4Addr) (r : Option State) (w : World)
      → w.rotator ≡ r
      → place (record w { rotator = Option.map (drop_data_slot cfg.backend_key local) r })
        ≡ put (some local) (place (record w { rotator = r }))
  unfolding place put
  place-with_rotator local none w e = unchanged_none (is_pair cfg.backend_key local backend source)
  place-with_rotator local (some state) w e =
      drop_data_slot-changed cfg.backend_key local backend source state

  place-drop_slot :
      (local : Option Ipv4Addr) (w : World) → place (drop_slot cfg local w) ≡ put local (place w)
  unfolding place put
  place-drop_slot none w = refl
  place-drop_slot (some local) w = place-with_rotator local w.rotator w refl

  pub dropped :
      (local : Option Ipv4Addr) (u v : World) → Holds local u v → Done u (drop_slot cfg local v)
  unfolding Holds Done
  dropped local u v h = subst (Settled (place u)) (sym (place-drop_slot local v)) h

  pub Holds-Still :
      (local : Option Ipv4Addr) (u v w : World) → Holds local u v → Still v w → Holds local u w
  unfolding Holds Still
  Holds-Still local u v w h k = subst (λ o. Settled (place u) (put local o)) (sym k) h

  pub Still-Done : (u v : World) → Still u v → Done u v
  unfolding Done Still
  Still-Done u v k = subst (Settled (place u)) (sym k) (settled_same (place u))

  pub order : Order Done
  unfolding Done
  order = record {
    same = λ w. settled_same (place w);
    both = λ {u} {v} {w} h k. settled_both (place u) (place v) (place w) h k;
  }

  blamed-Still :
      (local : Ipv4Addr) (kind : ErrorKind) (now : ℕ) (w : World)
      → Still w (with_rotator (λ s. (report_connect_failure local kind now s).1) w)
  unfolding Still place report_connect_failure mark_unhealthy_at
  blamed-Still local kind now w = of_rotator w.rotator
    where
      of_rotator :
          (r : Option State)
          → (elim (Option.map (λ s. (report_connect_failure local kind now s).1) r) [
            | none ↦ none
            | some state ↦ slot_of backend source state
          ])
            ≡ (elim r [ none ↦ none | some state ↦ slot_of backend source state ])
      of_rotator none = refl
      of_rotator (some state) = elim (Bool-cases (is_source_fault kind)) [
        | inl fault ↦ rw (fault) refl
        | inr other ↦ rw (other) refl
      ]

  pub Still-closed : Closed OwnCommand IsClientLine (IsWelcome (expected_ip cfg)) Still
  unfolding Still place
  Still-closed = record {
    order = record { same = λ w. refl; both = λ h k. k ∙ h };
    ticked = λ w. refl;
    told = λ text w. refl;
    sent = λ own w. refl;
    forwarded = λ line w. refl;
    met = λ welcome w. refl;
    reached = λ addr w. refl;
    observed = λ o w. refl;
    blamed = blamed-Still;
    made_secure = λ w. refl;
  }

  pub Still-attempts : Attempts Still Still Still
  unfolding Still place
  Still-attempts = record {
    quiet = λ u v h. h;
    before = λ u v w h k. k ∙ h;
    confirmed = λ u v h. h;
    uploaded = λ u v h. h;
    attempted = λ u v h. h;
    settled = λ u v h. h;
    settled_after = λ u v w h k. k ∙ h;
  }

-- ===== src/Market/Row.antt =====
-- The rows and bonds of the market ledger: the types of apps/web/src/market/store.ts. Money is whole
-- tinybar; motion and angles are the ten-thousandths and thousandths of the hub's odometer.
use eth_global_lisbon_2026_h.Base.{
  ℕ, String, Bool, true, false, ◌&&◌, Option, List, Eq, ◌==◌, nat_eq, string_eq, option_eq, list_eq,
  Fields, ◌↔◌, ◌≡◌, arith,
}
use eth_global_lisbon_2026_h.Hub.Rig.{EpisodeMotion}

-- `opened` is the source's `open`.
pub data RowStatus : Type 0 where
  opened closed graded paid rejected anchored : RowStatus

pub data Claimed : Type 0 where
  success discarded abandoned slot_expired : Claimed

-- The parts of the text `att-<at in base 36>-<seq>`, which determines them.
pub record RowId : Type 0 where
  pub at : ℕ
  pub seq : ℕ

unfoldable pub id_beq : RowId → RowId → Bool
id_beq a b = a.at == b.at && a.seq == b.seq

pub id_beq_iff : (a b : RowId) → (id_beq a b ≡ true) ↔ (a ≡ b)
unfolding id_beq
id_beq_iff a b = ground arith

instance abbrev pub id_eq : Eq RowId
id_eq = record { beq = id_beq; beq_iff = id_beq_iff }

pub record Operator : Type 0 where
  pub client_id : String
  pub nullifier : Option String
  pub evm_address : Option String

pub record RowTelemetry : Type 0 where
  pub duration_s : ℕ
  pub joint_travel_deg : ℕ
  pub commanded_motion : ℕ
  pub input_packets : ℕ
  pub gripper_cycles : ℕ
  pub episode_saved : Option Bool
  pub samples : ℕ
  pub episode : Option EpisodeMotion

pub record Evidence : Type 0 where
  pub frame_jpeg : Option (List ℕ)
  pub cam : Option String

pub record Grade : Type 0 where
  pub score : ℕ
  pub pass : Bool
  pub provider : String
  pub reason : String
  pub proof : Option Fields

pub data PaymentKind : Type 0 where
  bonus nothing : PaymentKind

pub record Payment : Type 0 where
  pub kind : PaymentKind
  pub tx_id : Option String
  pub amount_hbar : ℕ

pub record Provenance : Type 0 where
  pub hcs_seq : Option ℕ
  pub zg_root : Option String
  pub registry_tx : Option String
  pub tee_tx_hash : Option String
  pub slot_tx : Option String
  pub slot_attested : Option Bool

pub record LedgerRow : Type 0 where
  pub id : RowId
  pub rig : String
  pub task_id : Option String
  pub task_title : Option String
  pub rig_attempt_id : Option String
  pub source : Option String
  pub slot_id : Option ℕ
  pub slot_chain : Option String
  pub operator : Operator
  pub claimed : Option Claimed
  pub telemetry : RowTelemetry
  pub evidence : Evidence
  pub grade : Option Grade
  pub payment : Option Payment
  pub provenance : Option Provenance
  pub status : RowStatus
  pub opened_at : ℕ
  pub closed_at : Option ℕ

pub data BondStatus : Type 0 where
  locked released slashed : BondStatus

pub record BondState : Type 0 where
  pub nullifier : String
  pub evm_address : String
  pub stake_tx_hash : String
  pub status : BondStatus
  pub settle_tx_id : Option String
  pub amount_hbar : ℕ
  pub locked_at : ℕ
  pub last_active_at : ℕ

-- `used_stakes` holds the code points of the hashes, in lower case.
pub record Market : Type 0 where
  pub rows : List (RowId × LedgerRow)
  pub open_by_rig : List (String × RowId)
  pub client_nullifier : List (String × (String × ℕ))
  pub bonds : List (String × BondState)
  pub used_stakes : List (List ℕ)
  pub earnings : List (String × ℕ)
  pub seq : ℕ

abbrev pub is_open : RowStatus → Bool
is_open opened = true
is_open _ = false

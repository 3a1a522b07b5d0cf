-- ===== src/Connection/Maintenance/Refresh.antt =====
-- What a refresh of iothub_communication_manager.c does to the client.
use mbed_ce_client_for_azure.Base.{
  ℕ, true, Option, some, List, ◌++◌, ◌≡◌, arith, Run, ok, fault, out_of_fuel, ◌>>=◌, Bool-cases,
  inl, inr,
}
use mbed_ce_client_for_azure.Connection.{Manager, Call, init, deinit, device_client_destroy}
use mbed_ce_client_for_azure.Connection.Client.Create.{destroyed}
use mbed_ce_client_for_azure.Connection.Maintenance.{
  Environment, drop_client, connect, refresh, connection_maintenance, comm_do_work,
}

-- A refresh writes the client handle only.
pub record SameTimes (m m' : Manager) : Type 0 where
  pub last : m'.last_authentication_attempt_time ≡ m.last_authentication_attempt_time
  pub next : m'.next_authentication_attempt_time ≡ m.next_authentication_attempt_time
  pub retries : m'.authentication_retries ≡ m.authentication_retries
  pub status : m'.connection_status ≡ m.connection_status
  pub address : m'.handle_address_set ≡ m.handle_address_set
  pub callback : m'.handle_changed_callback ≡ m.handle_changed_callback

connect-SameTimes :
    (env : Environment) (m m' : Manager) (calls : List Call)
    → connect env m ≡ ok (m', calls)
    → SameTimes m m'
unfolding connect
connect-SameTimes env m m' calls h = ground arith

drop_client-SameTimes : (m : Manager) → SameTimes m (drop_client m).0
unfolding drop_client
drop_client-SameTimes m = ground arith

connected :
    (r : Run (Manager × List Call)) (dropped : List Call) (m' : Manager) (calls : List Call)
    → ◌>>=◌ {B = Manager × List Call} r (λ (m'', c). ok (m'', dropped ++ c)) ≡ ok (m', calls)
    → (c : List Call) × (r ≡ ok (m', c))
connected (ok (m'', c)) dropped m' calls h = (c, ground arith)
connected fault dropped m' calls h = cc
connected out_of_fuel dropped m' calls h = cc

pub refresh-SameTimes :
    (env : Environment) (m m' : Manager) (calls : List Call)
    → refresh env m ≡ ok (m', calls)
    → SameTimes m m'
unfolding refresh
refresh-SameTimes env m m' calls h = elim (Bool-cases m.handle_address_set) [
  | inl there ↦
      let dropped = drop_client m in
      let (c, made) = connected (connect env dropped.0) dropped.1 m' calls (ground (arith, h)) in
      let first = drop_client-SameTimes m in
      let second = connect-SameTimes env dropped.0 m' c made in ground (arith, first, second)
  | inr missing ↦ ground arith
]

-- Deinitialising an initialised manager destroys its client and leaves the handle. If the same
-- variable is then given to a new initialisation, the next refresh destroys that handle again.
pub deinit-init_destroys_twice :
    (m : Manager) (h : ℕ) (twin changed context : Option ℕ)
    → m.handle_address_set ≡ true
    → m.client_initialized ≡ true
    → m.client_handle ≡ some h
    → (destroyed h (deinit m).1 ≡ 1)
      × (destroyed h (drop_client (init true true twin changed context (deinit m).0).0).1 ≡ 1)
unfolding deinit init drop_client destroyed device_client_destroy
deinit-init_destroys_twice m h twin changed context there ready held = ground arith

-- After a deinitialisation that has destroyed a client, and before a new initialisation, `DoWork`
-- reads the client handle through a null pointer.
pub comm_do_work-deinit :
    (env : Environment) (m : Manager) (h : ℕ)
    → m.handle_address_set ≡ true
    → m.client_handle ≡ some h
    → comm_do_work env (deinit m).0 ≡ fault
unfolding comm_do_work deinit connection_maintenance refresh
comm_do_work-deinit env m h there held = ground arith

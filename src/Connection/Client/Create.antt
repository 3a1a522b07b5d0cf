-- ===== src/Connection/Client/Create.antt =====
-- What ADUC_DeviceClient_Create of iothub_communication_manager.c guarantees of the client.
use mbed_ce_client_for_azure.Base.{
  Option, Bytes, Bool, true, false, ◌&&◌, none, some, List, [], ◌∷◌, ◌++◌, ℕ, suc, ◌+◌, ◌≡◌, refl,
  arith, is_some, ◌==◌, if◌then◌else◌,
}
use mbed_ce_client_for_azure.Connection.{
  Setting, log_trace, x509_cert, sas_trusted_cert, edge_trusted_cert, openssl_engine,
  x509_private_key, openssl_private_key_type, model_id, twin_callback, status_callback, Call,
  create, set, destroy,
}
use mbed_ce_client_for_azure.Connection.Client.{
  ConnType, AuthType, unset, sas_token, sas_cert, nested_edge_cert, ConnectionInfo, Sdk, settings,
  run_settings, device_client_create,
}

-- The settings that a list of conditions asks for.
unfoldable pub needed_settings : List (Bool × Setting) → List Call
needed_settings [] = []
needed_settings ((needed, s) ∷ chain) =
    if needed then set s ∷ needed_settings chain else needed_settings chain

-- Every setting that is asked for is taken.
unfoldable pub takes_all : Sdk → List (Bool × Setting) → Bool
takes_all sdk [] = true
takes_all sdk ((needed, s) ∷ chain) =
    let rest = takes_all sdk chain in if needed then sdk.takes s && rest else rest

run_settings-takes_all :
    (sdk : Sdk) (chain : List (Bool × Setting)) → (run_settings sdk chain).0 ≡ takes_all sdk chain
unfolding run_settings takes_all
run_settings-takes_all sdk [] = refl
run_settings-takes_all sdk ((needed, s) ∷ chain) = ground (arith, run_settings-takes_all sdk chain)

run_settings-needed_settings :
    (sdk : Sdk) (chain : List (Bool × Setting))
    → takes_all sdk chain ≡ true
    → (run_settings sdk chain).1 ≡ needed_settings chain
unfolding run_settings needed_settings takes_all
run_settings-needed_settings sdk [] h = refl
run_settings-needed_settings sdk ((needed, s) ∷ chain) h =
    ground (arith, run_settings-needed_settings sdk chain)

-- What a connection needs, by its kind: the parts that it has, one setting for each.
abbrev when : Bool → Setting → List Setting → List Setting
when b s rest = if b then s ∷ rest else rest

abbrev certificate_settings : ConnectionInfo → AuthType → List Setting → List Setting
certificate_settings info unset rest = rest
certificate_settings info sas_token rest = sas_trusted_cert ∷ rest
certificate_settings info nested_edge_cert rest =
    when (is_some info.certificate_string) edge_trusted_cert rest
certificate_settings info sas_cert rest = when (is_some info.certificate_string) x509_cert (
    when (is_some info.openssl_engine_name) openssl_engine (
      when (is_some info.openssl_private_key) x509_private_key (
        when (is_some info.openssl_engine_name && is_some info.openssl_private_key)
          openssl_private_key_type rest)))

-- The settings of a connection: the trace, those of its kind, the model and the two callbacks.
unfoldable pub expected_settings : ConnectionInfo → List Setting
expected_settings info =
    log_trace
    ∷ certificate_settings info info.auth_type (model_id ∷ twin_callback ∷ status_callback ∷ [])

unfoldable pub set_calls : List Setting → List Call
set_calls [] = []
set_calls (s ∷ rest) = set s ∷ set_calls rest

unfoldable pub takes_every : Sdk → List Setting → Bool
takes_every sdk [] = true
takes_every sdk (s ∷ rest) = sdk.takes s && takes_every sdk rest

settings-expected :
    (sdk : Sdk) (conn : ConnType) (auth : AuthType) (string cert engine key : Option Bytes)
    → let info : ConnectionInfo = record {
      conn_type = conn;
      auth_type = auth;
      connection_string = string;
      certificate_string = cert;
      openssl_engine_name = engine;
      openssl_private_key = key;
    } in
      (takes_all sdk (settings info) ≡ takes_every sdk (expected_settings info))
      × (needed_settings (settings info) ≡ set_calls (expected_settings info))
unfolding takes_all needed_settings settings takes_every set_calls expected_settings
settings-expected sdk conn unset string cert engine key = (ground arith, ground arith)
settings-expected sdk conn sas_token string cert engine key = (ground arith, ground arith)
settings-expected sdk conn nested_edge_cert string cert engine key = (ground arith, ground arith)
settings-expected sdk conn sas_cert string cert engine key = (ground arith, ground arith)

-- Creation succeeds exactly if there is a transport, the SDK creates a client and takes every setting of
-- the connection: the log trace; for a SAS token the trusted certificate, for a nested edge certificate
-- that certificate if it is given, for a SAS certificate each of the certificate, the engine and the private
-- key that is given, and the type of the key if both of the latter are; then the model id and the callbacks
-- for the twin and the status. Then these settings are made, in this order, and the caller has the client.
-- Otherwise the caller has none.
pub device_client_create_lem :
    (has_transport : Bool) (sdk : Sdk) (info : ConnectionInfo)
    → ((device_client_create has_transport sdk info).0
        ≡ (has_transport && (is_some sdk.created && takes_every sdk (expected_settings info))))
      × ((device_client_create has_transport sdk info).0 ≡ true
          → ((device_client_create has_transport sdk info).1 ≡ sdk.created)
            × ((device_client_create has_transport sdk info).2
                ≡ create ∷ set_calls (expected_settings info)))
      × ((device_client_create has_transport sdk info).0 ≡ false
          → (device_client_create has_transport sdk info).1 ≡ none)
unfolding device_client_create
device_client_create_lem has_transport sdk info =
    let expected =
      settings-expected sdk info.conn_type info.auth_type info.connection_string
        info.certificate_string info.openssl_engine_name info.openssl_private_key in
    let result = run_settings-takes_all sdk (settings info) in
    let calls = run_settings-needed_settings sdk (settings info) in
    (
      ground (arith, result, expected.0),
      λ done. (ground (arith, result, calls, expected), ground (arith, result, calls, expected)),
      λ failed. ground (arith, result),
    )

is_destroy : ℕ → Call → Bool
is_destroy h (destroy g) = g == h
is_destroy h _ = false

-- How often `h` is destroyed in a list of calls.
unfoldable pub destroyed : ℕ → List Call → ℕ
unfolding is_destroy
destroyed h [] = 0
destroyed h (c ∷ calls) = let rest = destroyed h calls in if is_destroy h c then suc rest else rest

destroyed-append :
    (h : ℕ) (xs ys : List Call) → destroyed h (xs ++ ys) ≡ destroyed h xs + destroyed h ys
unfolding destroyed
destroyed-append h [] ys = omega arith
destroyed-append h (c ∷ xs) ys = ground (arith, destroyed-append h xs ys)

destroyed-run_settings :
    (h : ℕ) (sdk : Sdk) (chain : List (Bool × Setting)) → destroyed h (run_settings sdk chain).1 ≡ 0
unfolding destroyed run_settings
destroyed-run_settings h sdk [] = refl
destroyed-run_settings h sdk ((needed, s) ∷ chain) =
    ground (arith, destroyed-run_settings h sdk chain)

-- A client that is created and then not used is destroyed once, and one that the caller gets is not
-- destroyed.
pub device_client_create_frees :
    (sdk : Sdk) (info : ConnectionInfo) (h : ℕ)
    → sdk.created ≡ some h
    → ((device_client_create true sdk info).0 ≡ false
        → destroyed h (device_client_create true sdk info).2 ≡ 1)
      × ((device_client_create true sdk info).0 ≡ true
          → destroyed h (device_client_create true sdk info).2 ≡ 0)
unfolding device_client_create destroyed
device_client_create_frees sdk info h made =
    let chain = run_settings sdk (settings info) in
    let none_before = destroyed-run_settings h sdk (settings info) in
    let both = destroyed-append h chain.1 (destroy h ∷ []) in
    (λ failed. ground (arith, none_before, both), λ done. ground (arith, none_before))

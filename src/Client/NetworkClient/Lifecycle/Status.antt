-- ===== src/Client/NetworkClient/Lifecycle/Status.antt =====
-- What `isConnected` and the status signals of network_client.cpp say about the socket.
use qt_messenger.Prelude.{
  ◌≡◌, refl, sym, ap, ◌∙◌, inl, inr, Bool, true, false, not, ◌&&◌, Bool-cases, Option, none, some,
  List, [], ◌∷◌, ◌++◌, if_intro,
}
use qt_messenger.Qt.{Qt}
use qt_messenger.Message.{Message, is_user_list}
use qt_messenger.Client.NetworkClient.{
  SocketState, unconnected, connecting, connected, closing, NetworkClient, Event,
  connection_status_changed, on_connected, on_disconnected, on_error, disconnect, leave_host,
  close_socket, dispatch, is_connected, if_set, connect_to_host, disconnect_from_host, wrote,
  user_list_received, message_received, disconnected, calls_connection, calls_user_list,
  calls_message, calls_disconnected,
}

-- The status signals may come in this order when `b` is the next to come; which is next then.
abbrev pub follows : Bool → List Bool → Option Bool
follows b [] = some b
follows true (true ∷ bs) = follows false bs
follows false (false ∷ bs) = follows true bs
follows true (false ∷ bs) = none
follows false (true ∷ bs) = none

pub follows-append :
    (b b' : Bool) (bs cs : List Bool)
    → follows b bs ≡ some b'
    → follows b (bs ++ cs) ≡ follows b' cs
follows-append b b' [] cs h =
    ap (λ (o : Option Bool). elim o [ none ↦ none | some x ↦ follows x cs ]) h
follows-append true b' (true ∷ bs) cs h = follows-append false b' bs cs h
follows-append false b' (false ∷ bs) cs h = follows-append true b' bs cs h
follows-append true b' (false ∷ bs) cs h = cc
follows-append false b' (true ∷ bs) cs h = cc

-- The socket has been connected, and has not been disconnected since.
abbrev pub is_up : Option SocketState → Bool
is_up (some connected) = true
is_up (some closing) = true
is_up _ = false

module _ ⦃qt : Qt⦄ where
  open qt use {Uuid}

  abbrev pub statuses : List Event → List Bool
  statuses [] = []
  statuses (connection_status_changed b ∷ es) = b ∷ statuses es
  statuses (_ ∷ es) = statuses es

  pub statuses-append : (es fs : List Event) → statuses (es ++ fs) ≡ statuses es ++ statuses fs
  statuses-append [] fs = refl
  statuses-append (connection_status_changed b ∷ es) fs = ap (λ bs. b ∷ bs) (statuses-append es fs)
  statuses-append (connect_to_host h p ∷ es) fs = statuses-append es fs
  statuses-append (disconnect_from_host ∷ es) fs = statuses-append es fs
  statuses-append (wrote b ∷ es) fs = statuses-append es fs
  statuses-append (user_list_received us ∷ es) fs = statuses-append es fs
  statuses-append (message_received m ∷ es) fs = statuses-append es fs
  statuses-append (disconnected ∷ es) fs = statuses-append es fs
  statuses-append (calls_connection b ∷ es) fs = statuses-append es fs
  statuses-append (calls_user_list us ∷ es) fs = statuses-append es fs
  statuses-append (calls_message m ∷ es) fs = statuses-append es fs
  statuses-append (calls_disconnected ∷ es) fs = statuses-append es fs

  -- What `isConnected` returns is true of the socket.
  abbrev pub IsHonest : NetworkClient → Type 0
  IsHonest c = c.connected_flag ≡ true → c.socket ≡ some connected

  -- Which status signal is next.
  abbrev pub expects : NetworkClient → Bool
  expects c = not (is_up c.socket)

  -- What a step from `c` guarantees.
  abbrev pub Keeps : NetworkClient → NetworkClient × List Event → Type 0
  Keeps c r = IsHonest r.0 × (follows (expects c) (statuses r.1) ≡ some (expects r.0))

  pub on_connected-Keeps :
      (c : NetworkClient) → c.socket ≡ some connecting → Keeps c (on_connected c)
  unfolding on_connected
  on_connected-Keeps c at = elim (Bool-cases c.connection_callback) [
    | inl set ↦ rw (at, set) (λ e. refl, refl)
    | inr not_set ↦ rw (at, not_set) (λ e. refl, refl)
  ]

  pub on_disconnected-Keeps :
      (c : NetworkClient) → is_up c.socket ≡ true → Keeps c (on_disconnected c)
  unfolding on_disconnected
  on_disconnected-Keeps c up = elim (Bool-cases c.disconnected_callback) [
    | inl set ↦ elim (Bool-cases c.connection_callback) [
      | inl set' ↦ rw (up, set, set') (λ e. cc, refl)
      | inr not_set ↦ rw (up, set, not_set) (λ e. cc, refl)
    ]
    | inr not_set ↦ elim (Bool-cases c.connection_callback) [
      | inl set' ↦ rw (up, not_set, set') (λ e. cc, refl)
      | inr not_set' ↦ rw (up, not_set, not_set') (λ e. cc, refl)
    ]
  ]

  statuses-if_set : (b on : Bool) → statuses (if_set b (calls_connection on)) ≡ []
  statuses-if_set true on = refl
  statuses-if_set false on = refl

  pub on_error-Keeps :
      (state : Option SocketState) (c : NetworkClient)
      → (c.connected_flag ≡ true → state ≡ some connected)
      → is_up state ≡ is_up c.socket
      → Keeps c (on_error state c)
  unfolding on_error
  on_error-Keeps state c honest same = (
    honest,
    ap (follows (expects c))
          (statuses-if_set (c.connection_callback && not (is_connected state)) false)
        ∙ ap (λ b. some (not b)) (sym same),
  )

  connected_state : (o : Option SocketState) → is_connected o ≡ true → o ≡ some connected
  unfolding is_connected
  connected_state none h = cc
  connected_state (some unconnected) h = cc
  connected_state (some connecting) h = cc
  connected_state (some connected) h = refl
  connected_state (some closing) h = cc

  close_socket-follows :
      (at_once : Bool) (c : NetworkClient)
      → c.socket ≡ some connected
      → follows (expects c) (statuses (close_socket at_once c).1)
        ≡ some (expects (close_socket at_once c).0)
  unfolding close_socket
  close_socket-follows true c at = (on_disconnected-Keeps c (ap is_up at)).1
  close_socket-follows false c at = rw at refl

  leave_host-follows :
      (at_once : Bool) (c : NetworkClient)
      → follows (expects c) (statuses (leave_host at_once c).1)
        ≡ some (expects (leave_host at_once c).0)
  unfolding leave_host
  leave_host-follows at_once c = elim (Bool-cases (is_connected c.socket)) [
    | inl up ↦ rw up (close_socket-follows at_once c (connected_state c.socket up))
    | inr down ↦ rw down refl
  ]

  pub disconnect-Keeps : (at_once : Bool) (c : NetworkClient) → Keeps c (disconnect at_once c)
  unfolding disconnect
  disconnect-Keeps at_once c = (λ e. cc, leave_host-follows at_once c)

  -- A message causes no status signal.
  pub statuses-dispatch : (c : NetworkClient) (m : Message) → statuses (dispatch c m) ≡ []
  unfolding dispatch
  statuses-dispatch c m =
      if_intro (λ es. statuses es ≡ []) (is_user_list m.kind)
        (λ _. if_intro (λ es. statuses es ≡ []) c.user_list_callback (λ _. refl) (λ _. refl))
        (λ _. if_intro (λ es. statuses es ≡ []) c.message_callback (λ _. refl) (λ _. refl))

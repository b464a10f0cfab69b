-- ===== src/Client/NetworkClient/Lifecycle/Honest.antt =====
-- Whatever a client of network_client.cpp has lived through, its status is true and its status signals
-- alternate.
use qt_messenger.Prelude.{
  ℕ, zero, suc, ◌≡◌, refl, sym, ap, subst, ◌∙◌, inl, inr, true, not, some, List, [], ◌++◌, Bytes,
  if_intro, is_nil, length, arith,
}
use qt_messenger.Qt.{Qt, Stream, open_read}
use qt_messenger.Reader.{Outcome, returned, threw}
use qt_messenger.Message.{Message, blank, read_message}
use qt_messenger.Client.NetworkClient.{
  unconnected, NetworkClient, Event, new_client, connect_to_server, on_ready_read, process_buffer,
  process_loop, after_read, dispatch, Pass, remove_processed, is_ok, Ending,
}
use qt_messenger.Client.NetworkClient.Lifecycle.{
  Step, connects, gets_connected, gets_disconnected, fails, errs, reads, leaves, Lives, born,
  goes_on,
}
use qt_messenger.Client.NetworkClient.Lifecycle.Status.{
  follows, follows-append, is_up, statuses, statuses-append, IsHonest, expects, Keeps,
  on_connected-Keeps, on_disconnected-Keeps, on_error-Keeps, disconnect-Keeps, statuses-dispatch,
}

module _ ⦃qt : Qt⦄ where
  after_read-silent :
      (c : NetworkClient) (s : Stream) (loop : Stream → Pass) (x : Outcome Message × Stream)
      → ((t : Stream) → statuses (loop t).events ≡ [])
      → statuses (after_read c s loop x).events ≡ []
  unfolding after_read
  after_read-silent c s loop (threw, t) h = refl
  after_read-silent c s loop (returned m, t) h =
      if_intro (λ (p : Pass). statuses p.events ≡ []) (is_ok t.status)
        (λ _.
          statuses-append (dispatch c m) (loop t).events
          ∙ ap (λ bs. bs ++ statuses (loop t).events) (statuses-dispatch c m)
          ∙ h t)
        (λ _. refl)

  process_loop-silent :
      (fuel : ℕ) (c : NetworkClient) (s : Stream) → statuses (process_loop fuel c s).events ≡ []
  unfolding process_loop
  process_loop-silent zero c s = refl
  process_loop-silent (suc fuel) c s =
      if_intro (λ (p : Pass). statuses p.events ≡ []) (is_nil s.rest) (λ _. refl)
        (λ _.
          after_read-silent c s (process_loop fuel c) (read_message blank s)
            (process_loop-silent fuel c))

  remove_processed-same :
      (c : NetworkClient) (p : Pass)
      → ((remove_processed c p).0.socket ≡ c.socket)
        × ((remove_processed c p).0.connected_flag ≡ c.connected_flag)
        × ((remove_processed c p).1 ≡ p.events)
  unfolding remove_processed
  remove_processed-same c p = ground arith

  on_ready_read-Keeps :
      (b : Bytes) (c : NetworkClient)
      → IsHonest c
      → Keeps c ((on_ready_read b c).0, (on_ready_read b c).1)
  unfolding on_ready_read process_buffer
  on_ready_read-Keeps b c h =
      let c' : NetworkClient = record c { received_buffer = c.received_buffer ++ b } in
      let p = process_loop (suc (length c'.received_buffer)) c' (open_read c'.received_buffer) in
      let same = remove_processed-same c' p in
      (
        λ e. same.0 ∙ h (sym same.1 ∙ e),
        ap (follows (expects c)) (
              ap statuses same.2
              ∙ process_loop-silent (suc (length c'.received_buffer)) c'
                  (open_read c'.received_buffer))
            ∙ ap (λ o. some (not (is_up o))) (sym same.0),
      )

  Step-Keeps : {c d : NetworkClient} {es : List Event} → Step c es d → IsHonest c → Keeps c (d, es)
  unfolding connect_to_server
  Step-Keeps {c} (connects host port u p (inl at) e) h =
      subst (Keeps c) (sym e) (rw at ((λ up. cc (h up, at)), refl))
  Step-Keeps {c} (connects host port u p (inr at) e) h =
      subst (Keeps c) (sym e) (rw at ((λ up. cc (h up, at)), refl))
  Step-Keeps {c} (gets_connected at e) h = subst (Keeps c) (sym e) (on_connected-Keeps c at)
  Step-Keeps {c} (gets_disconnected (inl at) e) h =
      subst (Keeps c) (sym e) (on_disconnected-Keeps c (ap is_up at))
  Step-Keeps {c} (gets_disconnected (inr at) e) h =
      subst (Keeps c) (sym e) (on_disconnected-Keeps c (ap is_up at))
  Step-Keeps {c} (fails at e) h =
      subst (Keeps c) (sym e)
        (on_error-Keeps (some unconnected) c (λ up. cc (h up, at)) (ap is_up (sym at)))
  Step-Keeps {c} (errs e) h = subst (Keeps c) (sym e) (on_error-Keeps c.socket c h refl)
  Step-Keeps {c} (reads b at e) h =
      subst (Keeps c) (sym (ap (λ (r : NetworkClient × List Event × Ending). (r.0, r.1)) e))
        (on_ready_read-Keeps b c h)
  Step-Keeps {c} (leaves now e) h = subst (Keeps c) (sym e) (disconnect-Keeps now c)

  -- Whatever a client has lived through since it was made, in any order that the socket allows:
  -- `isConnected` is true only while the socket is connected, and the signals of its status alternate,
  -- the first says that it is connected, and the last says whether the socket has been connected and
  -- not been disconnected since.
  pub Lives-Honest :
      {c : NetworkClient} {es : List Event}
      → Lives c es
      → IsHonest c × (follows true (statuses es) ≡ some (expects c))
  unfolding new_client
  Lives-Honest born = (λ e. cc, refl)
  Lives-Honest (goes_on {c} {d} {es} {fs} l s) =
      let before = Lives-Honest l in
      let now = Step-Keeps s before.0 in
      (
        now.0,
        ap (follows true) (statuses-append es fs)
            ∙ follows-append true (expects c) (statuses es) (statuses fs) before.1
            ∙ now.1,
      )

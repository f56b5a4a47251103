-- ===== src/Api/Events/Laws.antt =====
-- Who gets a broadcast, and who is dropped by it.
use revenueguard_ai.Common.{
  ℕ, zero, suc, ◌+◌, ◌<◌, ◌≡◌, ◌≢◌, refl, ap, sym, ◌∙◌, Bool, true, false, not, List, [], ◌∷◌, ◌++◌,
  if◌then◌else◌, length, filter, take, arith, append_assoc, append-nil,
}
use revenueguard_ai.Api.Events.{
  disconnect_all, Broadcast, finished, size_changed, send_from, broadcast,
}
use revenueguard_ai.Api.Events.Sockets.{drop_failed}

module _ (accepts : ℕ → Bool) where
  abbrev refuses : ℕ → Bool
  refuses w = not (accepts w)

  -- What the sockets of a list add to those that were reached, and to those that failed.
  ending : (ws delivered failed connections : List ℕ) → Broadcast
  ending ws delivered failed connections =
      finished (delivered ++ filter accepts ws)
        (disconnect_all (failed ++ filter refuses ws) connections)

  ending-nil :
      (delivered failed connections : List ℕ)
      → finished delivered (disconnect_all failed connections)
        ≡ ending [] delivered failed connections
  unfolding ending filter
  ending-nil delivered failed connections =
      ap (λ l. finished l (disconnect_all failed connections)) (sym (append-nil delivered))
      ∙ ap (λ l. finished (delivered ++ []) (disconnect_all l connections))
          (sym (append-nil failed))

  ending-cons :
      (w : ℕ) (ws delivered failed connections : List ℕ)
      → (if accepts w
          then ending ws (delivered ++ w ∷ []) failed connections
          else ending ws delivered (failed ++ w ∷ []) connections)
        ≡ ending (w ∷ ws) delivered failed connections
  unfolding ending filter
  ending-cons w ws delivered failed connections = go (accepts w)
    where
      go :
          (b : Bool)
          → (if b
              then finished
                  ((delivered ++ w ∷ []) ++ filter accepts ws)
                  (disconnect_all (failed ++ filter refuses ws) connections)
              else finished
                  (delivered ++ filter accepts ws)
                  (disconnect_all ((failed ++ w ∷ []) ++ filter refuses ws) connections))
            ≡ finished (delivered ++ (if b then w ∷ filter accepts ws else filter accepts ws)) (
                disconnect_all
                  (failed ++ (if not b then w ∷ filter refuses ws else filter refuses ws))
                  connections)
      go true =
          ap (λ l. finished l (disconnect_all (failed ++ filter refuses ws) connections))
            (append_assoc delivered (w ∷ []) (filter accepts ws))
      go false =
          ap (λ l. finished (delivered ++ filter accepts ws) (disconnect_all l connections))
            (append_assoc failed (w ∷ []) (filter refuses ws))

  send_from-changed :
      (others : ℕ → List ℕ → List ℕ) (size n : ℕ) (connections ws delivered failed : List ℕ)
      → length connections ≢ size
      → send_from accepts others size n connections ws delivered failed
        ≡ size_changed delivered connections
  unfolding send_from
  send_from-changed others size n connections [] delivered failed changed = ground arith
  send_from-changed others size n connections (w ∷ ws) delivered failed changed = ground arith

  reached-cons :
      (w : ℕ) (ws delivered connections : List ℕ)
      → (if accepts w
          then size_changed ((delivered ++ w ∷ []) ++ filter accepts ws) connections
          else size_changed (delivered ++ filter accepts ws) connections)
        ≡ size_changed (delivered ++ filter accepts (w ∷ ws)) connections
  unfolding filter
  reached-cons w ws delivered connections = go (accepts w)
    where
      go :
          (b : Bool)
          → (if b
              then size_changed ((delivered ++ w ∷ []) ++ filter accepts ws) connections
              else size_changed (delivered ++ filter accepts ws) connections)
            ≡ size_changed
                (delivered ++ (if b then w ∷ filter accepts ws else filter accepts ws))
                connections
      go true =
          ap (λ l. size_changed l connections) (append_assoc delivered (w ∷ []) (filter accepts ws))
      go false = refl

  both :
      {A : Type 0} (b : Bool) {x x' y y' : A}
      → x ≡ x'
      → y ≡ y'
      → (if b then x else y) ≡ (if b then x' else y')
  both true p q = p
  both false p q = q

  module _ (others : ℕ → List ℕ → List ℕ) (size : ℕ) (connections : List ℕ) where
    send_from-nil :
        (n : ℕ) (delivered failed : List ℕ)
        → length connections ≡ size
        → send_from accepts others size n connections [] delivered failed
          ≡ finished delivered (disconnect_all failed connections)
    unfolding send_from
    send_from-nil n delivered failed same = ground arith

    send_from-cons :
        (n w : ℕ) (ws delivered failed : List ℕ)
        → length connections ≡ size
        → send_from accepts others size n connections (w ∷ ws) delivered failed ≡ (
            if accepts w
            then send_from accepts others size
                (suc n)
                (others n connections)
                ws
                (delivered ++ w ∷ [])
                failed
            else send_from accepts others size
                (suc n)
                (others n connections)
                ws
                delivered
                (failed ++ w ∷ []))
    unfolding send_from
    send_from-cons n w ws delivered failed same = ground arith

    send_from-quiet :
        length connections ≡ size
        → ((n : ℕ) → others n connections ≡ connections)
        → (n : ℕ) (ws delivered failed : List ℕ)
        → send_from accepts others size n connections ws delivered failed
          ≡ ending ws delivered failed connections
    send_from-quiet same quiet n [] delivered failed =
        send_from-nil n delivered failed same ∙ ending-nil delivered failed connections
    send_from-quiet same quiet n (w ∷ ws) delivered failed =
        send_from-cons n w ws delivered failed same
        ∙ ap
            (λ c.
              if accepts w
              then send_from accepts others size (suc n) c ws (delivered ++ w ∷ []) failed
              else send_from accepts others size (suc n) c ws delivered (failed ++ w ∷ []))
            (quiet n)
        ∙ both (accepts w) (send_from-quiet same quiet (suc n) ws (delivered ++ w ∷ []) failed)
            (send_from-quiet same quiet (suc n) ws delivered (failed ++ w ∷ []))
        ∙ ending-cons w ws delivered failed connections

    -- The first change of the size, during the send n + k.
    send_from-disturbed :
        length connections ≡ size
        → (k n : ℕ) (ws delivered failed : List ℕ) → k < length ws
        → ((i : ℕ) → i < k → others (n + i) connections ≡ connections)
        → length (others (n + k) connections) ≢ size
        → send_from accepts others size n connections ws delivered failed
          ≡ size_changed
              (delivered ++ filter accepts (take (suc k) ws))
              (others (n + k) connections)
    unfolding filter
    send_from-disturbed same k n [] delivered failed h quiet changed = absurd (omega arith)
    send_from-disturbed same zero n (w ∷ ws) delivered failed h quiet changed =
        let now : others (n + 0) connections ≡ others n connections =
          ap (λ m. others m connections) (omega arith) in
        let changed' : length (others n connections) ≢ size = λ e. changed (ap length now ∙ e) in
        send_from-cons n w ws delivered failed same
        ∙ both (accepts w)
            (send_from-changed others size (suc n) (others n connections) ws (delivered ++ w ∷ [])
                failed changed'
              ∙ ap (λ l. size_changed l (others n connections))
                  (sym (append-nil (delivered ++ w ∷ []))))
            (send_from-changed others size (suc n) (others n connections) ws delivered
                (failed ++ w ∷ []) changed'
              ∙ ap (λ l. size_changed l (others n connections)) (sym (append-nil delivered)))
        ∙ reached-cons w [] delivered (others n connections)
        ∙ ap (λ c. size_changed (delivered ++ filter accepts (w ∷ [])) c) (sym now)
    send_from-disturbed same (suc k) n (w ∷ ws) delivered failed h quiet changed =
        let later : others (suc n + k) connections ≡ others (n + suc k) connections =
          ap (λ m. others m connections) (omega arith) in
        let first : others n connections ≡ connections =
          ap (λ m. others m connections) (omega arith) ∙ quiet 0 (omega arith) in
        let changed' : length (others (suc n + k) connections) ≢ size =
          λ e. changed (sym (ap length later) ∙ e) in
        let quiet' : (i : ℕ) → i < k → others (suc n + i) connections ≡ connections =
          λ i below. ap (λ m. others m connections) (omega arith) ∙ quiet (suc i) (omega arith) in
        send_from-cons n w ws delivered failed same
        ∙ ap
            (λ c.
              if accepts w
              then send_from accepts others size (suc n) c ws (delivered ++ w ∷ []) failed
              else send_from accepts others size (suc n) c ws delivered (failed ++ w ∷ []))
            first
        ∙ both (accepts w)
            (send_from-disturbed same k (suc n) ws (delivered ++ w ∷ []) failed (omega arith) quiet'
              changed')
            (send_from-disturbed same k (suc n) ws delivered (failed ++ w ∷ []) (omega arith) quiet'
              changed')
        ∙ reached-cons w (take (suc k) ws) delivered (others (suc n + k) connections)
        ∙ ap (λ c. size_changed (delivered ++ filter accepts (w ∷ take (suc k) ws)) c) later

-- A broadcast that no other task disturbs ends; the sockets that accept the message have it, once
-- each, and they are the ones that stay connected. When another task first changes the number of
-- sockets during the send to the k-th of them (from 0), the broadcast raises: the sockets after it
-- have no message, and every socket that the other tasks left is still connected, the failed ones too.
pub broadcast-cases :
    (accepts : ℕ → Bool) (others : ℕ → List ℕ → List ℕ) (connections : List ℕ)
    → (((n : ℕ) → others n connections ≡ connections)
        → broadcast accepts others connections
          ≡ finished (filter accepts connections) (filter accepts connections))
      × ((k : ℕ)
          → k < length connections
          → ((i : ℕ) → i < k → others i connections ≡ connections)
          → length (others k connections) ≢ length connections
          → broadcast accepts others connections
            ≡ size_changed (filter accepts (take (suc k) connections)) (others k connections))
unfolding broadcast
broadcast-cases accepts others connections = (
  λ quiet.
      send_from-quiet accepts others (length connections) connections refl quiet 0 connections [] []
      ∙ (unfold ending in
          ap (λ l. finished (filter accepts connections) l) (drop_failed accepts connections)),
  λ k below quiet changed.
      let now : others (0 + k) connections ≡ others k connections =
        ap (λ m. others m connections) (omega arith) in
      send_from-disturbed accepts others (length connections) connections refl k 0 connections [] []
        below (λ i h. ap (λ m. others m connections) (omega arith) ∙ quiet i h)
        (λ e. changed (sym (ap length now) ∙ e))
      ∙ ap (λ c. size_changed (filter accepts (take (suc k) connections)) c) now,
)

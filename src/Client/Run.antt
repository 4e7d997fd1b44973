-- ===== src/Client/Run.antt =====
-- client/client.go: the steps of a goroutine of the client, in sequence.
use go9p.Client.{Client, GoError, Outcome, done, failed, panicked, blocked, unfinished, World}

abbrev pub Run : Type 0 → Type 0 → Type 0
Run S A = World S → Outcome A × World S

module _ {S A B : Type 0} where
  unfoldable pub next : Outcome A × World S → (A → Run S B) → Outcome B × World S
  next (done a, w) k = k a w
  next (failed e, w) k = (failed e, w)
  next (panicked, w) k = (panicked, w)
  next (blocked, w) k = (blocked, w)
  next (unfinished, w) k = (unfinished, w)

  infixl 10 ◌>>=◌
  unfoldable pub ◌>>=◌ : Run S A → (A → Run S B) → Run S B
  unfolding next
  (m >>= k) w = next (m w) k

module _ {S A : Type 0} where
  unfoldable pub pure : A → Run S A
  pure a w = (done a, w)

  unfoldable pub fail : GoError → Run S A
  fail e w = (failed e, w)

  unfoldable pub panic : Run S A
  panic w = (panicked, w)

  result : S → A × Client → Outcome A × World S
  result s (a, c) = (done a, record { client = c; peer = s })

  -- A step on the client alone.
  unfoldable pub on_client : (Client → A × Client) → Run S A
  unfolding result
  on_client f w = result w.peer (f w.client)

module _ {S : Type 0} where
  unfoldable pub update_client : (Client → Client) → Run S Unit
  update_client f w = (done tt, record w { client = f w.client })

-- ===== src/Client/Answers.antt =====
-- client/client.go: getResponse, when the answer to its call comes.
use go9p.Base.{ℕ, List, ◌∷◌, ◌≡◌, refl, ap, ◌∙◌, ==_refl}
use go9p.Proto.Call.{FCall, get_tag}
use go9p.Client.{
  Client, Delivery, received, done, World, replied, return_tag, delete_call, has_call, worker,
  worked, delivered, get_response,
}

worker-own :
    (c : Client) (tag : ℕ) (calls : List ℕ) (r : FCall)
    → get_tag r ≡ tag
    → worker tag r (record c { calls = tag ∷ calls })
      ≡ (done (replied r), return_tag tag (record c { calls = tag ∷ calls }))
unfolding worker has_call
worker-own c tag calls r e = rw (e, ==_refl tag) refl

pub get_response-replied :
    {S : Type 0} (send : FCall → S → Delivery × S) (f : FCall) (w : World S) (r : FCall) (s : S)
    → send f w.peer ≡ (received r, s)
    → get_tag r ≡ get_tag f
    → get_response send f w ≡ (
      done (replied r),
      record {
        client =
            return_tag
              (get_tag f)
              (record w.client { calls = get_tag f ∷ delete_call w.client.calls (get_tag f) });
        peer = s;
      },
    )
unfolding get_response delivered worked
get_response-replied send f w r s arrives tagged =
    ap
      (delivered (get_tag f)
        (record w.client { calls = get_tag f ∷ delete_call w.client.calls (get_tag f) }))
      arrives
    ∙ ap (worked s)
        (worker-own w.client (get_tag f) (delete_call w.client.calls (get_tag f)) r tagged)

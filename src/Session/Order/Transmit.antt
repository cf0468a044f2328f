-- ===== src/Session/Order/Transmit.antt =====
-- A step of the transmitter's worker keeps the order of the legs.
use viamillipede.Prelude.{
  ℕ, ◌≡◌, sym, ap, ◌∙◌, List, [], ◌++◌, update_all, nothing_left, append_assoc, update, arith,
}
use viamillipede.Wire.{Leg}
use viamillipede.Tx.Worker.{Txworker, unsent}
use viamillipede.Rx.Worker.{held}
use viamillipede.Session.Order.{View, IsOrdered}

pub regroup {ℓ} :
    {A : Type ℓ} (h w s u u' : List A) → s ++ u ≡ u' → h ++ (w ++ s) ++ u ≡ h ++ w ++ u'
regroup h w s u u' e =
    ap (λ l. l ++ u) (sym (append_assoc h w s))
    ∙ append_assoc (h ++ w) s u
    ∙ ap (λ l. h ++ w ++ l) e

-- A step of the transmitter's worker moves a leg onto the connection.
pub transmit-IsOrdered :
    {n : ℕ} {v : View} (i : ℕ) (w : Txworker) (sent : List Leg)
    → sent ++ unsent w ≡ unsent (v.tx i)
    → IsOrdered n v
    → IsOrdered n (record v { tx = update v.tx i w; wire = update v.wire i (v.wire i ++ sent) })
transmit-IsOrdered {v = v} i w sent e o = record {
  leg = o.leg;
  owner = o.owner;
  open_legs = o.open_legs;
  counted = o.counted;
  span = o.span;
  ids = o.ids;
  ends = o.ends;
  queued = λ j.
      ground
        (arith, o.queued j, regroup (held (v.rx i)) (v.wire i) sent (unsent w) (unsent (v.tx i)) e);
  gated = o.gated;
  put = o.put;
  carried = o.carried;
  mbox = o.mbox;
  drained = λ m.
      update_all (λ _ x. unsent x ≡ []) v.tx i w (nothing_left sent (unsent w) (e ∙ o.drained m i))
        (o.drained m);
}

-- What the worker has to send is all that counts of it.
pub relabel-IsOrdered :
    {n : ℕ} {v : View} (i : ℕ) (w : Txworker)
    → unsent w ≡ unsent (v.tx i)
    → IsOrdered n v
    → IsOrdered n (record v { tx = update v.tx i w })
relabel-IsOrdered {v = v} i w e o = record {
  leg = o.leg;
  owner = o.owner;
  open_legs = o.open_legs;
  counted = o.counted;
  span = o.span;
  ids = o.ids;
  ends = o.ends;
  queued = λ j. ground (arith, o.queued j, e);
  gated = o.gated;
  put = o.put;
  carried = o.carried;
  mbox = o.mbox;
  drained = λ m. update_all (λ _ x. unsent x ≡ []) v.tx i w (e ∙ o.drained m i) (o.drained m);
}

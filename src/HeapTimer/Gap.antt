-- ===== src/HeapTimer/Gap.antt =====
-- One move of the gap, as both loops make it.
use play_frame.Common.{ℕ, ◌<◌, ◌≡◌, ◌≢◌, sym, arith, subst}
use play_frame.Common.Run.{ok}
use play_frame.Common.Array.{update_other}
use play_frame.HeapTimer.{TimerNode, HeapTimer, put_node}
use play_frame.HeapTimer.Layout.{Layout, swap-Layout}
use play_frame.HeapTimer.Settled.{
  nodes_at, link_at, placed, placed-placed, Settled, Settled-swapped, Gap, put_node-placed,
}

module _ (n : ℕ) (t : HeapTimer) (place q : ℕ) (node : TimerNode) (g : Gap n t place node) where
  module _ (inside : q < n) (ne : place ≢ q) where
    -- The node at another place, as `t` has it.
    pub beside : nodes_at (placed t place node) q ≡ nodes_at t q
    beside = update_other (nodes_at t) place q node ne

    -- The gap moves to another place.
    pub Gap-moved : Gap n (placed t place (nodes_at t q)) q node
    Gap-moved = record {
      sized = record { heap = g.sized.heap; links = g.sized.links };
      bound = g.bound;
      inside = inside;
      layout =
          subst (λ p. Layout t.heap_size n (nodes_at p) (link_at p))
            (sym (placed-placed t place q node ne))
            (swap-Layout t.heap_size n (nodes_at (placed t place node))
              (link_at (placed t place node)) g.layout place q g.inside inside ne);
    }

    pub put_node-beside : put_node t place (nodes_at t q) ≡ ok (placed t place (nodes_at t q))
    put_node-beside =
        put_node-placed n t place (nodes_at t q) (omega (arith, g.sized.heap, g.bound, g.inside))
          (rw beside at (g.layout.named q inside))
          (omega (arith, g.sized.links, rw beside at (g.layout.high q inside)))

    -- What is settled after the move was settled before it.
    pub Settled-moved :
        {t' : HeapTimer}
        → Settled n (placed (placed t place (nodes_at t q)) q node) t'
        → Settled n (placed t place node) t'
    Settled-moved {t'} s =
        Settled-swapped n (placed t place node) t' place q g.layout g.inside inside ne
          (subst (λ p. Settled n p t') (placed-placed t place q node ne) s)

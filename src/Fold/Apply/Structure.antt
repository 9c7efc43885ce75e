-- ===== src/Fold/Apply/Structure.antt =====
-- internal/fold/state.go: the events of fan-outs, joins and maps.
use packtrail.Prelude.{
  String, Option, none, some, List, [], ◌∷◌, str_eq, if◌then◌else◌, length, replicate,
}
use packtrail.GoMap.{Map, empty, get, put, delete}
use packtrail.Json.{arr, marshal_items}
use packtrail.Outcome.{branches_failed, cannot_apply, Result, ok, err}
use packtrail.Platform.{Platform}
use packtrail.Event.{
  Event, Payload, Fanout, Join, MapStart, MapAbort, Time, fanout, join, map_start, map_done,
  map_abort,
}
use packtrail.Flow.{BranchStatus, pending, dropped}
use packtrail.Fold.State.{State, Fan, MapRun, ChildState, node_of}
use packtrail.Fold.Apply.Waits.{apply_wait}

unfoldable pub pending_branches : List String → Map BranchStatus → Map BranchStatus
pending_branches [] m = m
pending_branches (b ∷ bs) m = pending_branches bs (put m b pending)

-- the nodes of the children owned by `owner`, in the order of their keys
unfoldable pub owned_nodes : String → Map ChildState → List String
owned_nodes owner [] = []
owned_nodes owner ((k, c) ∷ cs) =
    let rest = owned_nodes owner cs in if str_eq c.owner owner then node_of c k ∷ rest else rest

-- (*State).dropChildren; the nodes that it returns are `owned_nodes`
unfoldable pub drop_children : String → Map ChildState → Map ChildState
drop_children owner [] = []
drop_children owner ((k, c) ∷ cs) =
    let rest = drop_children owner cs in if str_eq c.owner owner then rest else (k, c) ∷ rest

unfoldable pub drop_branches : List String → Map BranchStatus → Map BranchStatus
drop_branches [] m = m
drop_branches (b ∷ bs) m = drop_branches bs (put m b dropped)

unfoldable pub close_fan : Join → Option Fan → State → State
unfolding owned_nodes drop_children drop_branches
close_fan e none s = s
close_fan e (some f) s = record s {
  children = drop_children e.fanout s.children;
  branches = drop_branches (owned_nodes e.fanout s.children) f.branches;
}

unfoldable pub apply_join : Join → State → State
unfolding close_fan
apply_join e s =
    let t = close_fan e (get s.fans e.fanout) s in
    record t {
      fans = delete t.fans e.fanout;
      results = put t.results e.node e.output;
      last_node = e.node;
      errors =
          if e.ok
          then delete t.errors e.node
          else put t.errors e.node (record {
            error = branches_failed e.failed;
            reason = packtrail.Event.Reason.join;
            attempt = 0;
            index = none;
          });
    }

unfoldable pub map_ended : String → Option MapRun → State → Result State
map_ended node none s = err cannot_apply
map_ended node (some m) s = ok (record s {
  results = put s.results node (some (arr (marshal_items m.outputs)));
  last_node = node;
  maps = delete s.maps node;
  errors = delete s.errors node;
})

-- (*State).applyStructure
unfoldable pub apply_structure : Platform → Time → Payload State → State → Result State
unfolding pending_branches apply_join drop_children map_ended
apply_structure p time (fanout e) s = ok (record s {
  fans = put s.fans e.node (record { join = e.join; branches = pending_branches e.branches empty });
})
apply_structure p time (join e) s = ok (apply_join e s)
apply_structure p time (map_start e) s = ok (record s {
  maps = put s.maps e.node (record {
    items = e.items;
    outputs = replicate (length e.items) none;
    done = 0;
    next = 0;
    max_parallel = e.max_parallel;
  });
})
apply_structure p time (map_done node) s = map_ended node (get s.maps node) s
apply_structure p time (map_abort e) s =
    ok (record s { children = drop_children e.node s.children; maps = delete s.maps e.node })
apply_structure p time e s = apply_wait p time e s

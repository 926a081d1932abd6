-- ===== src/Runtime/Worker/Trace.antt =====
-- The order in which a worker touches its connection, read off its trace.
use azure_mysql_monitoring.Prelude.{ℕ, ◌≡◌, ◌⊎◌, Option, none, some, List, [], ◌∷◌}
use azure_mysql_monitoring.Prelude.Dict.{Dict}
use azure_mysql_monitoring.Runtime.Worker.{
  Effect, connecting, opened, verified, closed, wrote_points, wrote_events, Worker,
}
use azure_mysql_monitoring.Runtime.Worker.Step.{Step}

-- What the trace says of the connection: none, one that is not checked yet, or a checked one.
pub data Link : Type 0 where
  down : Link
  unchecked live : ℕ → Link

abbrev pub link_of : Option ℕ → Link
link_of none = down
link_of (some handle) = live handle

-- In the middle of an attempt the connection may be unchecked.
abbrev IsOpen : Option ℕ → Link → Type 0
IsOpen none l = l ≡ down
IsOpen (some handle) l = (l ≡ unchecked handle) ⊎ (l ≡ live handle)

module _ {Point Event : Type 0} where
  abbrev pub link : List (Effect Point Event) → Link
  link [] = down
  link (opened handle ∷ es) = unchecked handle
  link (verified handle ∷ es) = live handle
  link (closed handle ∷ es) = down
  link (_ ∷ es) = link es

  -- What may be done over a connection in such a state: open where there is none, check what was
  -- just opened, close what is open, and read and write only what was checked.
  abbrev pub Allowed : Effect Point Event → Link → Type 0
  Allowed connecting l = l ≡ down
  Allowed (opened handle) l = l ≡ down
  Allowed (verified handle) l = l ≡ unchecked handle
  Allowed (closed handle) l = (l ≡ unchecked handle) ⊎ (l ≡ live handle)
  Allowed (wrote_points handle name points) l = l ≡ live handle
  Allowed (wrote_events handle events) l = l ≡ live handle
  Allowed _ l = Unit

  abbrev pub IsOrderly : List (Effect Point Event) → Type 0
  IsOrderly [] = Unit
  IsOrderly (e ∷ es) = Allowed e (link es) × IsOrderly es

  -- Between the steps of a cycle a connection is there only if it was checked.
  pub record IsLinked (w : Worker Point Event) : Type 0 where
    pub orderly : IsOrderly w.trace
    pub agrees : link w.trace ≡ link_of w.connection

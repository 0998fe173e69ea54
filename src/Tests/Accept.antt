-- ===== src/Tests/Accept.antt =====
-- An example of the theorem on the loop that accepts connections.
use secure_chat.Prelude.{◌≤◌, true, false, some, none, List, [], ◌∷◌, ◌>>=◌, Returns}
use secure_chat.Server.Accept.{Arrival, start_threads, handle_connection_add}
use secure_chat.Server.Accept.Resources.{IsBalanced, handle_connection_add-bounded}

abbrev accepted_client : Arrival
accepted_client = record {
  socket = true;
  quit = false;
  ssl_new = true;
  handshake = true;
  memory = true;
  thread = some 21;
}

abbrev arrivals : List Arrival
arrivals =
    accepted_client
    ∷ record accepted_client { handshake = false }
    ∷ record accepted_client { thread = none }
    ∷ accepted_client
    ∷ []

handle_connection_add-bounded_example :
    Returns
      (start_threads (some 1) none (some 3) (some 4) 5 >>= handle_connection_add arrivals)
      (λ a. IsBalanced a × (a.started ≤ 95))
handle_connection_add-bounded_example =
    handle_connection_add-bounded (some 1) none (some 3) (some 4) 5 arrivals

-- ===== src/Messages/Tests.antt =====
-- A day's message and an older one.
use convos.Prelude.{ℕ, ◌≡◌, refl, false, codes, [], ◌∷◌, none, some, get_elem?, ◌/◌}
use convos.Host.{ascii_host}
use convos.Messages.{ChatMessage, Messages, push, unshift, render}
use convos.Messages.Rendering.{render-push, render-unshift}

abbrev says : ℕ → ChatMessage
says t = record {
  from = codes "a";
  type = codes "private";
  message = codes "hi";
  vars = [];
  highlight = false;
  yourself = false;
  fresh = false;
  internal = false;
  ts = some t;
  id = 0;
  color = [];
  connection_id = [];
  conversation_id = [];
  shown = none;
}

abbrev one : Messages
one = record { messages = says 2000 ∷ []; last_id = 1; raw = false }

abbrev day : ℕ → ℕ
day t = t / 1000

render-push_example :
    render day (push ascii_host 0 (says 3000 ∷ []) (render day one))
    ≡ render day (push ascii_host 0 (says 3000 ∷ []) one)
render-push_example = render-push day ascii_host 0 (says 3000 ∷ []) one

render-unshift_example :
    get_elem? (render day (unshift ascii_host 0 (says 1000 ∷ []) (render day one))).messages 1
    ≡ some (record (says 2000) { shown = some (record { same_from = false; day_changed = false }) })
render-unshift_example =
    render-unshift day ascii_host 0 (says 1000 ∷ []) [] (says 2000) one refl refl

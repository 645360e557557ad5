-- ===== src/Tests/Shutdowns.antt =====
-- The theorem on the closing of a test window, with a Lambda client that fails.
use aws_remote_mcp.Prelude.{Bool, true, false, not, ◌||◌, ◌≡◌, refl, none}
use aws_remote_mcp.Prelude.Result.{ok, err, is_ok, unexpected}
use aws_remote_mcp.Shutdown.{Surroundings, close_test_window}
use aws_remote_mcp.Shutdown.Closed.{IsClosing, close_test_window-closes}
use aws_remote_mcp.Tests.World.{std}

-- Whether the API is disabled, the function stopped and the alarm deleted.
pub record Window : Type 0 where
  disabled : Bool
  stopped : Bool
  deleted : Bool

abbrev aws : Surroundings Window
aws = record {
  client = λ service w. (ok tt, w);
  environ = λ name w. none;
  update_api = λ id disable w. (ok tt, record w { disabled = disable });
  put_function_concurrency = λ name n w. (err (unexpected "ClientError"), w);
  delete_alarms = λ names w. (ok tt, record w { deleted = true });
  print = λ fields w. (ok tt, w);
}

abbrev open_window : Window
open_window = record { disabled = false; stopped = false; deleted = false }

closing : IsClosing aws "api" "function" "alarm" Window.disabled Window.stopped Window.deleted
closing = record {
  api = λ w. refl;
  concurrency = λ w. refl;
  alarm = λ w. refl;
  concurrency_keeps = λ w. refl;
  alarm_keeps = λ w. (refl, refl);
  print_keeps = λ event w. (refl, refl, refl);
  print = λ event w. refl;
}

close_test_window-closes_example :
    let o = close_test_window std aws "api" "function" "alarm" "dev" open_window in
    (is_ok o.0 ≡ false)
    × ((not true || o.1.disabled) ≡ true)
    × ((not false || o.1.stopped) ≡ true)
    × ((not true || o.1.deleted) ≡ true)
close_test_window-closes_example =
    close_test_window-closes std aws "api" "function" "alarm" Window.disabled Window.stopped
      Window.deleted closing "dev" open_window

-- ===== src/FileApi/Requests.antt =====
-- The handlers of monitor/src/api/fs.rs, each with its check, and the routes to them.
use azad_server_box.Prelude.{ℕ, Bool, Option, none, some, List, [], Text, codes}
use azad_server_box.RemoteAccess.{Fs}
use azad_server_box.Audit.{Event}
use azad_server_box.FileApi.{World, Os, Caller, Reply, admit}
use azad_server_box.FileApi.Reading.{roots, list, stat, read}
use azad_server_box.FileApi.Writing.{write, mkdir, remove_entry, rename, chmod}

pub data Request : Type 0 where
  roots_of : Request
  lists stats_path makes : (path : Text) → Request
  reads : (path : Text) (offset : Option ℕ) → Request
  writes : (path : Text) (body : List (Option (List ℕ))) → Request
  removes : (path : Text) (recursive : Bool) → Request
  moves : (from to : Text) → Request
  changes_mode : (path : Text) (mode : ℕ) → Request

abbrev offset_or_zero : Option ℕ → ℕ
offset_or_zero none = 0
offset_or_zero (some offset) = offset

-- What the handler of a request does behind its check.
unfoldable pub operate : Os → Fs → (pid n : ℕ) → Request → World → Reply × World
unfolding roots list stat read write mkdir remove_entry rename chmod
operate os fs pid n roots_of w = roots fs.roots w
operate os fs pid n (lists path) w = list os fs.roots path w
operate os fs pid n (stats_path path) w = stat os fs.roots path w
operate os fs pid n (makes path) w = mkdir os fs.roots path w
operate os fs pid n (reads path offset) w = read os fs.roots path (offset_or_zero offset) w
operate os fs pid n (writes path body) w = write os fs pid n path body w
operate os fs pid n (removes path recursive) w = remove_entry os fs.roots path recursive w
operate os fs pid n (moves from to) w = rename os fs.roots from to w
operate os fs pid n (changes_mode path mode) w = chmod os fs.roots path mode w

-- `if let Err(res) = admit(…).await { return Ok(res); }` and what comes behind it.
unfoldable pub after_admission :
    Option Reply × List Event → Reply × World → World → Reply × List Event × World
after_admission (refused, events) (reply, after) w = elim refused [
  | some reply ↦ (reply, events, w)
  | none ↦ (reply, events, after)
]

unfoldable pub handle_roots : Os → Fs → Caller → World → Reply × List Event × World
unfolding after_admission admit roots
handle_roots os fs caller w =
    after_admission (admit fs caller (codes "roots") []) (roots fs.roots w) w

unfoldable pub handle_list : Os → Fs → Caller → Text → World → Reply × List Event × World
unfolding after_admission admit list
handle_list os fs caller path w =
    after_admission (admit fs caller (codes "list") path) (list os fs.roots path w) w

unfoldable pub handle_stat : Os → Fs → Caller → Text → World → Reply × List Event × World
unfolding after_admission admit stat
handle_stat os fs caller path w =
    after_admission (admit fs caller (codes "stat") path) (stat os fs.roots path w) w

unfoldable pub handle_mkdir : Os → Fs → Caller → Text → World → Reply × List Event × World
unfolding after_admission admit mkdir
handle_mkdir os fs caller path w =
    after_admission (admit fs caller (codes "mkdir") path) (mkdir os fs.roots path w) w

unfoldable pub handle_read : Os → Fs → Caller → Text → Option ℕ → World → Reply × List Event × World
unfolding after_admission admit read
handle_read os fs caller path offset w =
    after_admission (admit fs caller (codes "read") path)
      (read os fs.roots path (offset_or_zero offset) w) w

unfoldable pub handle_write :
    Os
    → Fs
    → Caller
    → (pid n : ℕ) → Text
    → List (Option (List ℕ))
    → World
    → Reply × List Event × World
unfolding after_admission admit write
handle_write os fs caller pid n path body w =
    after_admission (admit fs caller (codes "write") path) (write os fs pid n path body w) w

unfoldable pub handle_remove : Os → Fs → Caller → Text → Bool → World → Reply × List Event × World
unfolding after_admission admit remove_entry
handle_remove os fs caller path recursive w =
    after_admission (admit fs caller (codes "remove") path)
      (remove_entry os fs.roots path recursive w) w

unfoldable pub handle_rename : Os → Fs → Caller → Text → Text → World → Reply × List Event × World
unfolding after_admission admit rename
handle_rename os fs caller from to w =
    after_admission (admit fs caller (codes "rename") from) (rename os fs.roots from to w) w

unfoldable pub handle_chmod : Os → Fs → Caller → Text → ℕ → World → Reply × List Event × World
unfolding after_admission admit chmod
handle_chmod os fs caller path mode w =
    after_admission (admit fs caller (codes "chmod") path) (chmod os fs.roots path mode w) w

-- The routes.
unfoldable pub handle :
    Os → Fs → Caller → (pid n : ℕ) → Request → World → Reply × List Event × World
unfolding handle_roots handle_list handle_stat handle_mkdir handle_read handle_write handle_remove
    handle_rename handle_chmod
handle os fs caller pid n roots_of w = handle_roots os fs caller w
handle os fs caller pid n (lists path) w = handle_list os fs caller path w
handle os fs caller pid n (stats_path path) w = handle_stat os fs caller path w
handle os fs caller pid n (makes path) w = handle_mkdir os fs caller path w
handle os fs caller pid n (reads path offset) w = handle_read os fs caller path offset w
handle os fs caller pid n (writes path body) w = handle_write os fs caller pid n path body w
handle os fs caller pid n (removes path recursive) w = handle_remove os fs caller path recursive w
handle os fs caller pid n (moves from to) w = handle_rename os fs caller from to w
handle os fs caller pid n (changes_mode path mode) w = handle_chmod os fs caller path mode w

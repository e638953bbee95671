-- ===== src/StaticFiles.antt =====
-- server/internal/api/rest/static.go: which file of the front end a request gets. The files are
-- functions of their names; what path.Clean does to a path from the root is written out.
pub mod Served
use mini_control_public.Prelude.{
  ℕ, Bool, true, false, ◌&&◌, ◌||◌, not, List, [], ◌∷◌, ◌++◌, Option, none, some, ◌==◌,
  if◌then◌else◌,
}
use mini_control_public.Text.{Text, codes, text_eq}
use mini_control_public.Strings.{has_suffix, trim_prefix, split}
use mini_control_public.Http.{is_empty}

-- The last element of a stack goes; from the root there is no way up.
abbrev pub pop : List Text → List Text
pop [] = []
pop (s ∷ ss) = ss

abbrev pub is_dot : Text → Bool
is_dot s = is_empty s || text_eq s (codes ".")

-- An element behind those before, the last one first.
abbrev pub push_element : Text → List Text → List Text
push_element s stack =
    if is_dot s then stack else if text_eq s (codes "..") then pop stack else s ∷ stack

-- The elements of a path, the last one first, from those before.
unfoldable pub clean_elements : List Text → List Text → List Text
clean_elements stack [] = stack
clean_elements stack (s ∷ ss) = clean_elements (push_element s stack) ss

-- The elements of a stack, joined by slashes, in front of a text.
unfoldable pub join_elements : List Text → Text → Text
join_elements [] rest = rest
join_elements (s ∷ ss) rest = join_elements ss (b'/' ∷ (s ++ rest))

abbrev pub or_root : Text → Text
or_root [] = codes "/"
or_root (c ∷ cs) = c ∷ cs

-- `path.Clean` of a path that begins with a slash.
unfoldable pub clean_rooted : Text → Text
unfolding clean_elements join_elements
clean_rooted path = or_root (join_elements (clean_elements [] (split b'/' path)) [])

-- The name below the root that a path of a URL is looked up by.
unfoldable pub static_name : Text → Text
unfolding clean_rooted
static_name url_path =
    let trimmed =
      trim_prefix (clean_rooted (b'/' ∷ trim_prefix url_path (codes "/"))) (codes "/") in
    if text_eq trimmed (codes ".") then [] else trimmed

pub data StaticReply : Type 0 where
  not_found : StaticReply
  -- A redirect to a host, with the path and the query of the request.
  redirects : Text → Text → Text → StaticReply
  -- `fileServer` answers the request, whose path names an entry.
  file_server : Text → StaticReply
  -- The content of a file, and whether it is sent as HTML.
  writes_content : List ℕ → Bool → StaticReply

pub record Root : Type 0 where
  pub stat : Text → Bool
  pub read_file : Text → Option (List ℕ)

abbrev pub content_of : Text → Option (List ℕ) → StaticReply
content_of name none = not_found
content_of name (some content) = writes_content content (has_suffix name (codes ".html"))

unfoldable pub serve_static_file : Root → Text → StaticReply
serve_static_file root name = content_of name (root.read_file name)

pub record StaticRequest : Type 0 where
  pub method : Text
  pub host : Text
  pub path : Text
  pub query : Text

abbrev pub reads_only : Text → Bool
reads_only method = text_eq method (codes "GET") || text_eq method (codes "HEAD")

abbrev pub index : Text
index = codes "index.html"

-- What a name is answered with.
unfoldable pub serve_name : Root → Text → StaticReply
unfolding serve_static_file
serve_name root [] = serve_static_file root index
serve_name root (c ∷ cs) =
    if root.stat (c ∷ cs) then file_server (c ∷ cs) else serve_static_file root index

-- The handler that `NewStaticHandler` makes; both hosts are normalized.
unfoldable pub static_handler : Root → Text → StaticRequest → StaticReply
unfolding serve_name static_name
static_handler root browser_host r =
    if not (reads_only r.method)
    then not_found
    else if not (is_empty browser_host) && not (text_eq r.host browser_host)
    then redirects browser_host r.path r.query
    else serve_name root (static_name r.path)

-- ===== src/Lib.antt =====
-- OxiTerm serves documents to terminals: a server keeps a session for each client, decodes what its
-- terminal sends, lays the document out, draws it into a buffer of cells, and sends the difference
-- to the frame before it.
--
-- The files follow the parts of the program. A session reads bytes from a client; `Input` and its
-- decoder turn them into events. The document is a tree of nodes (`Dom`) that stand in an `Arena`.
-- What is drawn stands in a `Buffer` of cells; its difference to the frame before it is a list of
-- drawing commands (`Diff`), which are sent in a binary form to web clients. Frames go through a
-- bounded `Channel` to the client's connection, and a `RateLimit` bounds an address's requests.
-- What a node shows depends on the `State` of the session, which the client's actions and the
-- application server's patches change, within the limits of a `Throttle`, and in which the
-- session's `Identity` stands under reserved keys. A `for` node is expanded to copies of its
-- templates (`Expand`), and a style that changes moves to its new value by an `Animation`. A
-- `Diagram` is parsed, laid out and drawn into a grid of its own, and rendered frames are kept as
-- `Assets`.
--
-- Common     shared names, lists, bits, characters and results; Common/Texts texts as lists of code
-- points, Common/TextMap maps with texts for keys, and Common/Int integers Style      `AnsiColor`
-- of oxiterm-proto/src/style.rs; Style/Computed its `ComputedStyle` Unicode
-- oxiterm-renderer/src/render/unicode.rs: `UnicodeWidthCache::width` Buffer
-- oxiterm-renderer/src/render/buffer.rs: `Cell`, `CellBuffer` and `DoubleBuffer` Diff
-- oxiterm-renderer/src/render/diff.rs: `AnsiCommand`; Diff/Engine `DiffEngine::diff`, with
-- Diff/Engine/Terminal for what a terminal makes of the commands; Diff/Binary `encode_binary` and
-- `decode_binary`; Diff/Ansi `encode_ansi` Input      oxiterm-proto/src/input/mod.rs: the events;
-- Input/Utf8 `std::str::from_utf8` and `encode_utf8` after their documentation; Input/Params
-- `parse_kitty` and `parse_sgr`, Input/Sequence the events of whole sequences, and Input/Decoder
-- the state machine of oxiterm-proto/src/input/decoder.rs Channel
-- oxiterm-server/src/backpressure.rs: the methods of the sender and the receiver; Channel/Log the
-- specification RateLimit  oxiterm-server/src/ratelimit.rs: `RateLimiter` Throttle
-- oxiterm-server/src/throttle.rs: `TokenBucket` and `EventThrottle`; Throttle/Episodes how the
-- event loop of session.rs treats a navigation State      oxiterm-server/src/state.rs:
-- `StateManager`, its actions and, in State/Bindings, `evaluate_bind_show`; State/Patch
-- `ClientSession::apply_state_patch` of session.rs Identity   oxiterm-server/src/identity.rs, and
-- `ClientSession::attach_identity` of session.rs UrlValidator  oxiterm-server/src/url_validator.rs:
-- `validate_app_server_url` Session    oxiterm-server/src/session.rs: `PredictiveEcho` and
-- `ResizeDebouncer` Diagram    oxiterm-renderer/src/diagram: the graph and, in Diagram/Mermaid, its
-- parser `parse_mermaid`; Diagram/Layout `compute_layout`; Diagram/Grid `CellGrid`, with
-- Diagram/Grid/Crop for `crop` Assets     oxiterm-renderer/src/render/cache.rs: `AssetCache` and
-- `PlaybackRegistry` Dom        oxiterm-proto/src/dom.rs: `NodeTag`, `NodeAttributes` and `Node`
-- Document   oxiterm-renderer/src/document.rs: `THTMLDocument`; Document/Clone `clone_subtree`
-- Expand     oxiterm-server/src/expand.rs: `expand_for_node`, with its validation and its copies
-- Animation  oxiterm-server/src/animation.rs: `AnimationController`; Animation/Solvers the curves
-- and the springs, Animation/Values the stored values and the samples, Animation/Sync
-- `sync_transitions` and `restore_baselines`, Animation/Tick `tick` Sixel
-- oxiterm-renderer/src/render/sixel.rs: `SixelCodec`; Sixel/Encoder its output Layout
-- oxiterm-renderer/src/layout/types.rs: `Rect`, `HitTester` and `LayoutResult`; Layout/Compute, of
-- layout/engine.rs, what `LayoutEngine::compute` makes of the rectangles that the crate taffy has
-- found, the paint order, and `hit_test` Wrap       how text is broken into lines: the counts of
-- oxiterm-renderer/src/layout/engine.rs, as `word_wrapped_line_count`, and the drawing of
-- render/renderer.rs Arena      oxiterm-renderer/src/arena.rs: `NodeArena`
--
-- Conventions. Bytes, characters, ids and coordinates are natural numbers; what bounds them by
-- their type is a hypothesis where a theorem needs it. Times are nanoseconds of one clock, and a
-- byte carries the times at which the decoder reads the clock. Where the source may panic, the
-- result is an `Option` whose `none` is the panic. `&mut self` is the state taken and returned; a
-- method behind a lock is one step.
--
-- Bounds and fuel. The decoder's buffer holds 256 bytes and its UTF-8 buffer fewer than four.
-- `decode_binary` loops on as much fuel as the stream has bytes; each round takes one byte at
-- least. `diff` loops over a row on as much fuel as the frame is wide; each round moves on by a
-- column at least. A width beyond 2^16 - 255 is left out: there the sum of a column and a
-- character's width may pass 16 bits. `compute_layout` makes as many passes over the edges as the
-- source allows, one more than the graph has nodes. `clone_subtree` has fuel for its recursion, as
-- the source has a stack; as much as the subtree has nodes is enough. So have the recursions of
-- `expand_for_node` over its templates, and those of `compute` over the document. `tick` has as
-- many turns as there are transitions. The bisection of a Bézier curve has no bound in the source,
-- and may go on for ever; the model cuts it off behind as many turns as a parameter says and takes
-- the value it has then.
--
-- Parameters. The tables of the crate unicode-width are a function from characters to widths, with
-- no hypothesis. In how many columns a terminal draws a character is a function too, with no
-- hypothesis, and so is where its cursor lands behind one, with the hypothesis `Lands`. The
-- threshold of the rate limiter, a float product, is a function of the limit, with no hypothesis.
-- The computed style of a node is a type. The text that the crate serde_json gives of a value, what
-- the crate url makes of a text and the lower case of a text are functions, with no hypothesis. The
-- `f32` of the animations is a type with its operations; where a theorem needs it, the hypothesis
-- `FloatLaws` says that an integer of 16 bits is such a number and that a number less itself is no
-- change. An image is what the crate image gives of it, its sizes and its pixels; the order in
-- which a hash table is walked is a function. What the crate taffy says of a node, its rectangle in
-- its parent if it is displayed, is a function, with the hypothesis that the rectangle is there
-- where a theorem says that `compute` ends. That a space is one column wide in the table of
-- unicode-width is a hypothesis where rows of wrapped text are counted.
--
-- Numbers. Where the source has f64 in a token bucket, the model counts billionths of a token
-- exactly; the rounding of f64 is left out.
--
-- Not modelled: the flexbox layout and its upkeep, the parsers of templates and styles, rendering
-- of cells but for text, and of images but for sixels, the minimap of a diagram, the rest of the
-- session's event loop, the dispatcher and the transports, which wait on sockets and timers or rest
-- on third-party crates. Wake-ups of the channel's waiting receiver only end a wait.
pub mod Common
pub mod Style
pub mod Unicode
pub mod Buffer
pub mod Sixel
pub mod Diff
pub mod Input
pub mod Channel
pub mod Dom
pub mod Arena
pub mod RateLimit
pub mod Layout
pub mod Wrap
pub mod Document
pub mod Expand
pub mod State
pub mod Throttle
pub mod Identity
pub mod Animation
pub mod Assets
pub mod UrlValidator
pub mod Session
pub mod Diagram

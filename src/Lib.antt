-- ===== src/Lib.antt =====
-- A model of the browser side of Convos, a chat client: the objects that keep the state of the
-- connection, of the conversations and of the page, as pure functions over records, and theorems
-- about them. The components below stand on each other like this: every stateful object is a
-- Reactive; the Socket carries messages to the server and passes the answers on to its listeners;
-- the User dispatches its messages to a Connection and from there to a Conversation, whose Participants
-- (a SortedMap at the interface of its list) and messages they change; I18N makes HTML of a message;
-- the command history and the route are what the user walks through.
--
-- Files, and the code that each is about (paths from the repository's root):
--
--   Prelude, Prelude/*      texts as lists of UTF-16 code units, lists, options, integers, decimal
--                           numerals, and the JavaScript `Map` as an association list in the order
--                           of insertion (Prelude/Dict)
--   Host                    what the browser gives: toLowerCase, localeCompare, the color of a hue
--   Constants               assets/js/constants.js, the two tables of mode characters
--   Util/Modes, Util/Color, Util/Visible
--                           assets/js/util.js: calculateModes, str2color, findVisibleElements
--   SortedMap, SortedMap/*  assets/js/SortedMap.js
--   Reactive, Reactive/*    assets/js/Reactive.js: prop, update, _delayedUpdate, on, emit and the two
--                           stores. `update` of the model is update(); the timer's callback is
--                           `delayed_update`
--   Route, Route/*          assets/store/Route.js: go, _onLocationChange and the history; Route/Url has
--                           conversationPath, urlFor and wsUrlFor
--   Socket, Socket/*        assets/js/Socket.js: one function per method and per handler of the
--                           WebSocket; Socket/Events has the steps of a run, from user calls to the
--                           handlers and the timers
--   Participants, Participants/*
--                           assets/store/Participants.js: add, rename, delete, clear, toArray
--   CommandHistory, CommandHistory/*
--                           assets/store/CommandHistory.js: the walk with the arrow keys
--   Messages, Messages/Rendering
--                           assets/store/Messages.js: the list, and what render() works out per message
--   Conversation, Conversation/*
--                           assets/store/Conversation.js: addMessages, load, and the handlers of events;
--                           load() is two functions, before and after its await
--   Operation, Operation/*  assets/store/Operation.js: perform() as one function per round of the event
--                           loop, and the building of the request; Operation/Lock has the steps of a run
--   Commands, Commands/Normal
--                           assets/js/commands.js: normalizeCommand and commandOptions
--   ChatHelpers             assets/js/chatHelpers.js: awayMessage
--   I18N, I18N/*            assets/store/I18N.js: l() and escape, the regular expressions of the rules
--                           as matchers (I18N/Match), their handlers, the tag tree (I18N/Markdown)
--                           and its HTML (I18N/Html)
--   Connection, Connection/*
--                           assets/store/Connection.js: the conversations of a connection, and one
--                           function per handler of an event
--   User, User/*            assets/store/User.js: the tree of connections, what is shown, load(), the
--                           counters (User/Unread) and the dispatch of messages
--   Autocomplete, Autocomplete/*
--                           assets/js/autocomplete.js: fillIn, the category of a word, the options
--   Search, Search/Found    assets/store/Search.js and assets/store/Notifications.js
--   Emojis, Emojis/Finding  assets/js/Emojis.js: the groups by the first letters, and the search
--
-- Conventions. A method that changes its object is a function from the state and the arguments to the
-- new state; a method that can throw returns an Option. A call of a listener is an entry in a log,
-- and what the listener does is a later step. A clock is an argument.
--
-- Fuel. The binary search in Util/Visible has one unit of fuel per element, and each round leaves
-- fewer elements; `emit` in Reactive/Listeners has one unit per subscriber, and each round starts one
-- place further. `make_tag` in I18N/Markdown has two units more than the text has characters: a tag
-- that is found leaves parts that are shorter than the text, and the parts are read with one unit
-- less; a text that is read without rules needs one.
--
-- Not modelled: the Svelte components and pages, which are views; the DOM, canvas and media glue in
-- util.js, DragAndDrop, Jitsi, hljs, video, viewport and ThemeManager; the server (Go). Of the stores,
-- ConnectionProfiles is not modelled, nor are Api, ConnectionURL, Notify and Time among the classes of
-- assets/js; of Connection.send() and Emojis.markup(), which build regular expressions from data,
-- nothing is. Numbers of the browser that the code computes as floats (colors, human readable sizes)
-- are not modelled.
pub mod Prelude
pub mod Route
pub mod Reactive
pub mod Host
pub mod Constants
pub mod Util
pub mod SortedMap
pub mod Participants
pub mod Socket
pub mod CommandHistory
pub mod Messages
pub mod Conversation
pub mod Operation
pub mod Commands
pub mod ChatHelpers
pub mod I18N
pub mod Connection
pub mod User
pub mod Autocomplete
pub mod Search
pub mod Emojis

-- ===== src/Lib.antt =====
-- ws-audiod: the audio daemon, from a chunk of samples to files, shared memory, clips and answers.
--
-- A capture thread reads periods of PCM frames from a sound card. For every period it calls the
-- RingBuffer, which keeps the last minute for clips, and the BlockRecorder, which writes the whole
-- stream to files of a fixed number of frames, and the SamplePublisher, which shows it to other
-- processes. The ClipExtractor reads the RingBuffer when a client asks for a clip. The
-- CapturePipeline owns them all: its callback shapes a chunk (one channel, gain, DC filter) and hands
-- it on. The Daemon sets the pipeline up from the configuration and answers the clients of the
-- ControlSocket.
--
-- Which file models what, with paths from the repository's root:
--   Pow2       `next_power_of_2` of src/capture/ring_buffer.cpp and `next_pow2` of
--              src/capture/block_recorder.cpp
--   Pcm        samples of 16, 24 and 32 bits in bytes, as the pipeline, the recorder and the clip
--              extractor read and store them
--   Circular   bytes of a stream in an array that is used round its end; shared by the two below
--   Ring       src/capture/ring_buffer.cpp: the record `Ring` is the class's state, `ring_buffer` its
--              constructor, `write` and `read` its methods, with their loops on fuel
--   Recorder   src/capture/block_recorder.cpp: `block_recorder`, `start`, `push` and `stop` are the
--              methods; `refill` and `cut` are the two halves of a `round` of the writer thread's
--              inner loop, which `drain` repeats, and `finish` is its outer loop after `stop`
--   Recorder/Writer  the files: `open_next_file`, `close_current_file`, `make_filename`, and the loop
--              `process` over the frames of the write buffer
--   Recorder/Run     the two threads as a step relation
--   Publisher  src/sharing/sample_publisher.cpp: `initialize`, `publish` with its stores in their order,
--              `cleanup`; and the reader of examples/audio_consumer.cpp: `read_format`, `poll`
--   Clips      src/capture/clip_extractor.cpp: `request_clip`, a turn `work` of the worker thread,
--              `extract_clip`, `write_sndfile`, and `request_clip_sync` with its end, `collect`
--   Pipeline   src/pipeline/capture_pipeline.cpp: `apply_downmix`; Pipeline/Gain `apply_gain`,
--              Pipeline/Dc `apply_dc_remove`, Pipeline/Meter the levels, Pipeline/Chunk the record of
--              the class and `on_audio_chunk`, Pipeline/Life the constructor, `initialize`, `start`,
--              `stop` and `set_parameter`
--   Alsa       src/capture/alsa_capture.cpp: `initialize`, `start`, `stop` and `capture_loop`, the loop
--              of the capture thread over its turns; Alsa/Feed is the callback that the pipeline sets
--   Config     src/utils/config.cpp: `trim`, `parse_line`, `load_config` and `parse_args`, with
--              `std::stoul` and `std::stoi`; the settings of include/audio_daemon/common.hpp
--   Control    src/utils/control_socket.cpp: `parse_command` and `handle_client`, and the responses of
--              include/audio_daemon/control_socket.hpp
--   Daemon     src/main.cpp: the handlers of the commands, with the JSON texts of
--              src/pipeline/capture_pipeline.cpp
--   Base       lists, `memcpy`, 64-bit words, bits and tests that all of them share
--
-- Numbers. A `size_t` or `uint64_t` is a number below 2 ^ 64, and the operations on it are written
-- with their remainder (`add_size`, `sub_size`, `mul_size`). A byte is a number; where its range
-- matters it is a hypothesis. Theorems about a cursor assume that it stays below 2 ^ 64: at 192 kB
-- a second that is three million years.
--
-- Loops. A loop runs on fuel, and a theorem says which fuel is enough: one more than the frames that
-- are left for `write_loop`, `read_loop` and `process`, one more than the bytes in the queue for
-- `drain`, and one pass for `stop` if files can be opened and its notification is heard.
--
-- Threads. Each call of `push` and each round of the writer is one step. The queue is made for one
-- thread at each end: `push` changes `ring_write` and free cells only, a round `ring_read` only, each
-- cursor is stored after the bytes are copied and loaded before they are read, so a call acts as if
-- it took place at its store. `stop` clears the writer's flag without its mutex: a notification that
-- comes between the writer's test and its wait is lost, and `stop` does not return; whether it is
-- heard is a field of `Outside`. The RingBuffer's calls are atomic here too, although a reader does
-- not lock out the writer.
--
-- Outside. libsndfile, the clock and `gmtime_r` are the fields of `Outside`, any functions: whether a
-- file can be opened, what a write reports, and how a time is printed. A file is the list of samples
-- that it was handed. The system calls of the publisher are the fields of `System`, and what a clip
-- finds at its time those of `Moment`, the buffer's content among them.
--
-- Signed overflow. The seconds of a clip are an `int`, whose overflow wraps here (`int_sub`); the
-- conversion of a sample to an integer, behind the gain or the filter, gives anything where it is out
-- of range (`cast`). A theorem that says more assumes the range.
--
-- Floating point. `float` and `double` are the two types of a record `Floating` with the operations
-- that the source uses, any functions, `std::stod` and the printing of numbers among them. It has one
-- law: a value in the range of an integer type is converted to it without its fraction. `whole` is an
-- instance with whole numbers, for examples.
--
-- The command line is the list of the options that `getopt_long` finds, and the file system gives
-- the content of a configuration file or nothing. A client is what one `recv` gives. The ALSA
-- library is a record `Card` of any answers to the set-up, and a list of turns for the loop.
--
-- Not modelled: the NEON branches of the pipeline's loops (the portable ones are), the priority and
-- the CPU of the capture thread, the accept loop of the control socket, signals and the daemon's run
-- loop, help texts and logging, and the examples but for the reader of shared memory. Of several
-- clients that wait for clips at once, only the turns of the queue are modelled.
pub mod Alsa
pub mod Base
pub mod Pow2
pub mod Circular
pub mod Pcm
pub mod Ring
pub mod Recorder
pub mod Publisher
pub mod Clips
pub mod Pipeline
pub mod Config
pub mod Control
pub mod Daemon

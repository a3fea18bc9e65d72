-- ===== src/Lib.antt =====
-- Verification of the image processing of this repository, which looks for a moving blob before
-- a known background, and of the multimedia core that its camera runs on. Paths of the first,
-- which end in .cpp, are from the repository's root; the others are within
-- raspicam-0.1.6/dependencies/current/interface.
--
-- The image processing. `seq` (sequential.cpp) subtracts the background from the frame by
-- `bg_sub` (bg_sub.cpp), smooths the mask by `blur` (blur.cpp), subtracts once more, and has
-- `blob_detect` (blob_detect.cpp) label the connected blobs, report the biggest and frame it in
-- the output; `compare` (compare.cpp) sums what two images differ by. `bg_sub_parallel`
-- (bg_sub_par.cpp) and `blur_parallel` (blur_par.cpp) divide the first two steps among threads,
-- and `vector_bg_sub` (bg_sub_simd.cpp) does the first with vector instructions.
--
-- The multimedia core. The parts and how they interact. A camera frame travels in a buffer
-- header (mmal/core/mmal_buffer.c) that belongs to a pool (mmal/core/mmal_pool.c). The pool
-- keeps its free headers in a queue (mmal/core/mmal_queue.c): a client gets one, acquires and
-- releases it, and its last release calls the pool's release function, which puts it back on
-- the queue. A header may replicate another, and then holds a count of it until its own last
-- release. Beside them stand the event flags of the layer below
-- (vcos/generic/vcos_generic_event_flags.c), which threads sleep on, and its message queues
-- (vcos/generic/vcos_msgqueue.c), through which threads send and reply.
--
-- The files of the image processing. Vision/Image: an image_t is a size and a map from offsets
-- to bytes; a read or a write outside it is a fault, and so is an index that overflows an int.
-- Vision/Root: the integer part of sqrt. Vision/Painters and Pixels: threads that write pixels
-- of one image, as jobs that run in any order, pixel by pixel. Vision/BgSub: bg_sub, its thread
-- function and its vector form; children for what the mask is (Mask), and for each of the three
-- (Sequential, Parallel, Simd).
-- Vision/Blur: blur, blur_helper and blur_parallel; children for the weighted average
-- (Average), the loops of blur (Sequential, Range) and the threads (Parallel). Vision/Blobs:
-- the labels, the blobs and their merges of blob_detect; children for the sums along one axis
-- (Axis), what the table of blobs keeps (Labelled), one pixel (Step), the loops (Loops) and the
-- links between labels (Redirect).
-- Vision/Scan: loops over the inner pixels. Vision/Detect: the second half of blob_detect,
-- which merges linked blobs (Merge), chooses the biggest (Biggest) and draws its box (Picture);
-- Whole is about the whole call. Vision/Compare and Vision/Pipeline: compare and seq.
--
-- The files of the multimedia core. Mmal/World: the memory. Pointers are numbers, NULL is 0,
-- and the headers, queues and pools are maps from pointers; MMAL_BUFFER_HEADER_T and its
-- private area are Header and HeaderPrivate, MMAL_QUEUE_T is Queue, MMAL_POOL_PRIVATE_T is
-- Pool. Mmal/Chain: chains through `next` fields as lists. Mmal/Queue: mmal_queue_create, put,
-- put_back, get, wait, timedwait, length and destroy, under the names without their prefix; its
-- children are about what a queue holds (Fifo, Take), histories of calls (History), creation
-- (Lifecycle) and interleavings of threads (Threads). Mmal/Buffer: mmal_buffer_header_acquire,
-- reset, release, release_continue, replicate, reference, size, initialise and
-- pre_release_cb_set, and mmal_pool_buffer_header_release, which they call back; children
-- Release and Replicate. Mmal/Pool: mmal_pool_create, create_with_allocator, destroy, resize,
-- callback_set and pre_release_callback_set; children Space (the block that the headers stand
-- in), Fill (the loop that initialises the headers), Create and Failure.
-- Mmal/DoubleList: mmal/util/mmal_list.c, whose mmal_list_create, push_front, push_back,
-- pop_front, pop_back and insert have their names without the prefix; children for the links
-- (Linked), the pushes and pops (Ends), insert (Insert) and histories (Histories).
-- Mmal/Rational: gcd and mmal_rational_add, subtract, multiply, divide, simplify, equal,
-- from_fixed_16_16 and to_fixed_16_16 (mmal/util/mmal_util_rational.c); children for divisors
-- (Divisors), gcd (Rounds, Gcd), simplification (Simplest), products (Factors, Product), sums
-- (Sum), the test for equality (Equal) and the conversions (Fixed).
-- Vcos/EventFlags: vcos_generic_event_flags_create, set and get, event_flags_timer_expired,
-- waiter_list_valid and VCOS_QUEUE_APPEND_TAIL (vcos_common.h); waiters are pointers into a
-- memory of their own, with their `next` fields. Its children: the list of waiters (Waits), the
-- walk of a set (Wakes) and the set (Set), the timer (Expiry), get (Get), runs with more fuel
-- (Fuel), and interleavings (Sleepers).
-- Vcos/MessageQueue: vcos_msgq_create, vcos_msg_send, sendwait, wait, peek, reply and
-- set_source, and vcos_msgq_pool_create, alloc, wait and free; children for what a queue holds
-- (Messages), interleavings of threads (Receivers) and replies (Replies).
-- Vcos/ReentrantMutex: vcos_generic_reentrant_mutex_create, lock and unlock (vcos/generic/
-- vcos_generic_reentrant_mtx.c); Exclusion is about interleavings.
-- Vcos/SafeString: vcos_safe_strcpy, vcos_safe_vsprintf and vcos_safe_sprintf (vcos/generic/
-- vcos_generic_safe_string.c); Truncation is about what they write.
-- Base holds what all share: tests and options, lists, linked lists as lists of addresses
-- (Chains), binary digits (Bits), integers (Int), counted loops (Loops) and sums (Sums). The
-- modules called Tests run the theorems at concrete inputs.
--
-- Faults. A function that dereferences NULL or a freed object, or an address outside an array
-- or a block, gives `none`; `Yields P` says that a call gives a result, and that P holds of it.
--
-- Bounds and fuel. Lengths and sizes are unsigned 32-bit numbers and wrap around; a reference
-- count is an int32_t, kept as its 32 digits, and faults where it overflows. The release of a
-- header recurses through references; its fuel bounds the length of that chain, and the
-- theorems give the amount that is enough (one unit, or two through a reference). The loops
-- over waiters and over list elements run on fuel; one unit more than there are elements is
-- enough. The loops of gcd run on fuel, no more than the sum of the two numbers and one. Loops
-- with a counter run on the number of their rounds. An int of the image processing faults where
-- it leaves 32 bits, and seq converts the sizes to the shorts that blob_detect takes; its
-- unsigned longs have 32 bits and wrap around. Events are numbers of 32 bits, and `~` is taken
-- in 32.
--
-- Parameters. Where blob_detect reads an element of an array it has not initialised, what the
-- stack held is an argument (`stack`), in which numbers are not negative. Results of
-- vcos_malloc and vcos_calloc, of the creation of a mutex or a semaphore, and of the payload
-- allocator are arguments, and so are the client's callbacks (Client) and the sizes of the C
-- structures (Sizes). The semaphore is a counter that a post raises and a wait lowers.
-- Assertions. The assertion against a division by zero in mmal_rational_divide is a fault where
-- it fails. Other assertions of the sources are left out, as in a build without them.
--
-- Not modelled: of the image processing, the parallel and vector forms of blob detection and
-- the vector form of blur, the threaded pipeline, the programs around them and the files they
-- write; of the multimedia core, the sanity check of assertion builds, logging, the driver area
-- and the memory handles of headers; and the parts of the repository above and beside both
-- (ports, components, clocks, the C++ camera wrapper).
pub mod Base
pub mod Mmal
pub mod Vcos
pub mod Vision
